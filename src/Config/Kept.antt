-- ===== src/Config/Kept.antt =====
-- From the text of the configuration to the addresses that the admin client posts to.
use Prim.Native.Nat.{ℕ}
use pyxxl.Base.{◌≡◌, refl, ap, sym, ◌∙◌, true, List, [], ◌∷◌, ◌++◌, map, arith, All}
use pyxxl.Config.Texts.{Text, codes, join, starts_with}
use pyxxl.Config.Url.{lower}
use pyxxl.Config.Address.{
  ok, ◌>>=◌, normalize_admin_url, not_blank, strip_all, split_admin_baseurls, normalize_all,
  some_urls, validate_admin_baseurl, normalize_admin_urls,
}
use pyxxl.Config.Settings.{ExecutorConfig, admin_baseurls, post_init}
use pyxxl.Config.Complete.{post_init-IsComplete}
use pyxxl.Config.Plain.{Lacks, strip_visible, split-join, one_of-append}
use pyxxl.Config.Paths.{normalize_path-Lacks}
use pyxxl.Config.Written.{
  Address, written, IsAddress, normal, normalize_admin_url_lem, written-visible, text_given,
}
use pyxxl.Config.Normal.{normal-IsAddress, normal_idem, lower_idem, scheme_comma}

-- An address with a web scheme that stands in a list with commas.
pub record IsListed (a : Address) : Type 0 where
  pub address : IsAddress a
  pub web : starts_with (codes "http") (lower a.scheme) ≡ true
  pub host_comma : Lacks b',' a.host
  pub path_comma : Lacks b',' a.path

abbrev pub texts : List Address → List Text
texts = map written

abbrev pub normals : List Address → List Address
normals = map normal

normal-IsListed : (a : Address) → IsListed a → IsListed (normal a)
normal-IsListed a w = record {
  address = normal-IsAddress a w.address;
  web = ap (starts_with (codes "http")) (lower_idem a.scheme) ∙ w.web;
  host_comma = w.host_comma;
  path_comma = normalize_path-Lacks b',' a.path refl w.path_comma;
}

normalize_listed :
    (a : Address) → IsListed a → normalize_admin_url (written a) ≡ ok (written (normal a))
normalize_listed a w = rw (normalize_admin_url_lem a w.address, w.web) refl

normalize_texts :
    (xs : List Address) → All IsListed xs → normalize_all (texts xs) ≡ ok (texts (normals xs))
unfolding normalize_all
normalize_texts [] h = refl
normalize_texts (a ∷ xs) h = rw (normalize_listed a h.0, normalize_texts xs h.1) refl

not_blank-texts : (xs : List Address) → All IsListed xs → not_blank (texts xs) ≡ texts xs
unfolding not_blank
not_blank-texts [] h = refl
not_blank-texts (a ∷ xs) h =
    rw (strip_visible (written a) (written-visible a h.0.address), text_given a h.0.address)
      (ap (λ x. written a ∷ x) (not_blank-texts xs h.1))

strip_all-texts : (xs : List Address) → All IsListed xs → strip_all (texts xs) ≡ texts xs
unfolding strip_all
strip_all-texts [] h = refl
strip_all-texts (a ∷ xs) h =
    rw (strip_visible (written a) (written-visible a h.0.address))
      (ap (λ x. written a ∷ x) (strip_all-texts xs h.1))

Lacks-append : (c : ℕ) (s t : Text) → Lacks c s → Lacks c t → Lacks c (s ++ t)
Lacks-append c s t h k = ground (arith, one_of-append s t c, h, k)

written-Lacks : (a : Address) → IsListed a → Lacks b',' (written a)
unfolding written
written-Lacks a w =
    Lacks-append b',' a.scheme (codes "://" ++ a.host ++ a.path)
      (scheme_comma a.scheme w.address.scheme_chars)
      (Lacks-append b',' a.host a.path w.host_comma w.path_comma)

texts-Lacks : (xs : List Address) → All IsListed xs → All (Lacks b',') (texts xs)
texts-Lacks [] h = tt
texts-Lacks (a ∷ xs) h = (written-Lacks a h.0, texts-Lacks xs h.1)

split_texts :
    (a : Address) (xs : List Address)
    → All IsListed (a ∷ xs)
    → split_admin_baseurls (join b',' (texts (a ∷ xs))) ≡ texts (a ∷ xs)
unfolding split_admin_baseurls
split_texts a xs h =
    rw (split-join b',' (written a) (texts xs) (texts-Lacks (a ∷ xs) h))
      (ap strip_all (not_blank-texts (a ∷ xs) h) ∙ strip_all-texts (a ∷ xs) h)

-- a setting of listed addresses is replaced by that of their normal forms
validate_texts :
    (a : Address) (xs : List Address)
    → All IsListed (a ∷ xs)
    → validate_admin_baseurl (join b',' (texts (a ∷ xs)))
      ≡ ok (join b',' (texts (normals (a ∷ xs))))
unfolding validate_admin_baseurl some_urls
validate_texts a xs h = rw (split_texts a xs h, normalize_texts (a ∷ xs) h) refl

normals-IsListed : (xs : List Address) → All IsListed xs → All IsListed (normals xs)
normals-IsListed [] h = tt
normals-IsListed (a ∷ xs) h = (normal-IsListed a h.0, normals-IsListed xs h.1)

normals_idem : (xs : List Address) → normals (normals xs) ≡ normals xs
normals_idem [] = refl
normals_idem (a ∷ xs) = λ i. normal_idem a i ∷ normals_idem xs i

client_texts :
    (a : Address) (xs : List Address)
    → All IsListed (a ∷ xs)
    → normalize_admin_urls (texts (normals (a ∷ xs))) ≡ ok (texts (normals (a ∷ xs)))
unfolding normalize_admin_urls some_urls
client_texts a xs h =
    let n = normals-IsListed (a ∷ xs) h in
    ap (λ r. normalize_all r >>= some_urls) (not_blank-texts (normals (a ∷ xs)) n)
    ∙ ap (λ r. r >>= some_urls)
        (normalize_texts (normals (a ∷ xs)) n ∙ ap (λ x. ok (texts x)) (normals_idem (a ∷ xs)))

-- For a setting that lists addresses of admins with commas: a configuration that is accepted gives
-- their normal forms, in the same order, and the admin client that is made of these posts to exactly
-- these.
pub client_keeps_urls :
    (ip : Text) (c c' : ExecutorConfig) (a : Address) (xs : List Address)
    → c.xxl_admin_baseurl ≡ join b',' (texts (a ∷ xs))
    → All IsListed (a ∷ xs)
    → post_init ip c ≡ ok c'
    → (admin_baseurls c' ≡ texts (normals (a ∷ xs)))
      × (normalize_admin_urls (admin_baseurls c') ≡ ok (admin_baseurls c'))
unfolding admin_baseurls
client_keeps_urls ip c c' a xs setting h e =
    let admins = (post_init-IsComplete ip c c' e).admins in
    let same : join b',' (texts (normals (a ∷ xs))) ≡ c'.xxl_admin_baseurl =
      ok_eq (sym (validate_texts a xs h) ∙ sym (ap validate_admin_baseurl setting) ∙ admins) in
    let urls : split_admin_baseurls c'.xxl_admin_baseurl ≡ texts (normals (a ∷ xs)) =
      ap split_admin_baseurls (sym same)
      ∙ split_texts (normal a) (normals xs) (normals-IsListed (a ∷ xs) h) in
    (urls, ap normalize_admin_urls urls ∙ client_texts a xs h ∙ ap ok (sym urls))
  where
    ok_eq : {s t : Text} → ok s ≡ ok t → s ≡ t
    ok_eq p = cc
