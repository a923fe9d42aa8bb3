-- ===== src/Web/Proxy/Forwarding.antt =====
-- The headers that reach the API, one by one.
use arcpass.Prelude.{
  ◌≡◌, refl, sym, ap, ◌∙◌, Bool, true, false, Option, none, some, codes, to_lower, any, List, [],
  ◌∷◌, Text, text_eq, text_eq→eq, text_eq_self, arith, if◌then◌else◌, Bool-cases, inl, inr,
}
use arcpass.Web.Proxy.{
  Header, get_header, set_header, is_skipped, copy_headers, client_ip, forwarded_for,
  forward_headers, or_text,
}

-- Each name once, as the class Headers has them.
abbrev pub IsUnique : List Header → Type 0
IsUnique [] = Unit
IsUnique (h ∷ hs) = (get_header h.name hs ≡ none) × IsUnique hs

get-set_self : (k v : Text) (hs : List Header) → get_header k (set_header k v hs) ≡ some v
get-set_self k v [] = rw (text_eq_self k) refl
get-set_self k v (h ∷ hs) = ground (arith, text_eq_self k, get-set_self k v hs)

get-set_ne :
    (k l v : Text) (hs : List Header)
    → text_eq l k ≡ false
    → get_header k (set_header l v hs) ≡ get_header k hs
get-set_ne k l v [] ne = rw ne refl
get-set_ne k l v (h ∷ hs) ne = elim (Bool-cases (text_eq h.name l)) [
  | inl same ↦ ground (arith, ne, same, text_eq→eq h.name l same)
  | inr other ↦ rw other (ground (arith, get-set_ne k l v hs ne))
]

-- A name that is skipped, or that is not there, is not copied.
copy-skipped :
    (k : Text) (hs copied : List Header)
    → is_skipped k ≡ true
    → get_header k (copy_headers hs copied) ≡ get_header k copied
copy-skipped k [] copied skip = refl
copy-skipped k (h ∷ hs) copied skip = elim (Bool-cases (is_skipped h.name)) [
  | inl hop ↦ rw hop (copy-skipped k hs copied skip)
  | inr through ↦ rw through (
      copy-skipped k hs _ skip
      ∙ get-set_ne k h.name h.value copied (differs (text_eq h.name k) refl through))
]
  where
    differs :
        (b : Bool) → text_eq h.name k ≡ b → is_skipped h.name ≡ false → text_eq h.name k ≡ false
    differs true e through =
        absurd (ground (arith, skip, through, ap is_skipped (text_eq→eq h.name k e)))
    differs false e through = e

copy-absent :
    (k : Text) (hs copied : List Header)
    → get_header k hs ≡ none
    → get_header k (copy_headers hs copied) ≡ get_header k copied
copy-absent k [] copied h = refl
copy-absent k (h ∷ hs) copied e = elim (Bool-cases (text_eq h.name k)) [
  | inl same ↦ absurd (ground (arith, same, e))
  | inr other ↦ elim (Bool-cases (is_skipped h.name)) [
    | inl hop ↦ rw hop (copy-absent k hs copied (ground (arith, other, e)))
    | inr through ↦
        rw through
          (copy-absent k hs _ (ground (arith, other, e)) ∙ get-set_ne k h.name h.value copied other)
  ]
]

copy-kept :
    (k : Text) (hs copied : List Header)
    → IsUnique hs
    → is_skipped k ≡ false
    → get_header k copied ≡ none
    → get_header k (copy_headers hs copied) ≡ get_header k hs
copy-kept k [] copied unique keep fresh = fresh
copy-kept k (h ∷ hs) copied unique keep fresh = elim (Bool-cases (text_eq h.name k)) [
  | inl same ↦ this_one (text_eq→eq h.name k same) same
  | inr other ↦ rw other (elim (Bool-cases (is_skipped h.name)) [
    | inl hop ↦ rw hop (copy-kept k hs copied unique.1 keep fresh)
    | inr through ↦
        rw through
          (copy-kept k hs _ unique.1 keep (get-set_ne k h.name h.value copied other ∙ fresh))
  ])
]
  where
    this_one :
        h.name ≡ k
        → text_eq h.name k ≡ true
        → get_header k (copy_headers (h ∷ hs) copied) ≡ get_header k (h ∷ hs)
    this_one e same =
        rw (ap is_skipped e ∙ keep, same)
          (copy-absent k hs (set_header h.name h.value copied)
              (sym (ap (λ n. get_header n hs) e) ∙ unique.0)
            ∙ ap (λ n. get_header k (set_header n h.value copied)) e
            ∙ get-set_self k h.value copied)

-- The headers that are for one connection only, and the host.
abbrev pub connection_headers : List Text
connection_headers =
    codes "connection"
    ∷ codes "keep-alive"
    ∷ codes "te"
    ∷ codes "trailer"
    ∷ codes "transfer-encoding"
    ∷ codes "upgrade"
    ∷ codes "host"
    ∷ []

-- The first of two entries that is not empty, or a default.
abbrev pub first_of : Option Text → Option Text → Text → Text
first_of (some (c ∷ s)) other default = c ∷ s
first_of _ (some (c ∷ s)) default = c ∷ s
first_of _ _ default = default

client_ip-first :
    (hs : List Header)
    → client_ip hs
      ≡ first_of
          (get_header forwarded_for hs)
          (get_header (codes "x-real-ip") hs)
          (codes "127.0.0.1")
unfolding client_ip
client_ip-first hs = by_entries (get_header forwarded_for hs) (get_header (codes "x-real-ip") hs)
  where
    by_entries :
        (a b : Option Text)
        → or_text a (or_text b (codes "127.0.0.1")) ≡ first_of a b (codes "127.0.0.1")
    by_entries (some (c ∷ s)) b = refl
    by_entries (some []) (some (c ∷ s)) = refl
    by_entries (some []) (some []) = refl
    by_entries (some []) none = refl
    by_entries none (some (c ∷ s)) = refl
    by_entries none (some []) = refl
    by_entries none none = refl

is_skipped-connection :
    (k : Text) → to_lower k ≡ k → is_skipped k ≡ any (text_eq k) connection_headers
unfolding is_skipped
is_skipped-connection k e = rw e (ground arith)

-- The API gets, of each header: X-Forwarded-For with the browser's own header of that name, if it
-- sends one that is not empty, or else its X-Real-IP, or else 127.0.0.1; none of the host and of the
-- six headers that are for one connection only; and every other one as the browser sent it. The
-- condition is that each name is there once, and in lower case.
pub forward_headers-get :
    (hs : List Header) (k : Text)
    → IsUnique hs
    → to_lower k ≡ k
    → get_header k (forward_headers hs) ≡ (
        if text_eq forwarded_for k
        then some (
            first_of
              (get_header forwarded_for hs)
              (get_header (codes "x-real-ip") hs)
              (codes "127.0.0.1"))
        else if any (text_eq k) connection_headers
        then none
        else get_header k hs)
unfolding forward_headers
forward_headers-get hs k unique lower =
    rw (← is_skipped-connection k lower, ← client_ip-first hs)
      (elim (Bool-cases (text_eq forwarded_for k)) [
        | inl same ↦ rw same (
            ap (λ n. get_header n (set_header forwarded_for (client_ip hs) (copy_headers hs [])))
              (sym (text_eq→eq forwarded_for k same))
            ∙ get-set_self forwarded_for (client_ip hs) (copy_headers hs []))
        | inr other ↦ rw other (
            get-set_ne k forwarded_for (client_ip hs) (copy_headers hs []) other
            ∙ elim (Bool-cases (is_skipped k)) [
              | inl hop ↦ rw hop (copy-skipped k hs [] hop)
              | inr through ↦ rw through (copy-kept k hs [] unique through refl)
            ])
      ])
