-- ===== src/Security/RateLimit/Keys.antt =====
-- The keys of the buckets (internal/security/ratelimit.go, bucketKey): a session and a kind are read
-- off a key at its last colon, where the kind has none. Ids of sessions may have colons.
use text.Mathlib.Text.{starts_with}
use text.Mathlib.TextEquality.{starts_with_iff}
use text.Mathlib.TextLemmas.{append_assoc}
use text.Mathlib.TextPositions.{starts_with-append}
use Prim.Native.Char.{Char, char}
use Prim.Native.String.{[] as empty_text, ◌∷◌ as text_cons, ◌++◌}
use Prim.Native.String.append.{nil, cons}
use sclaw.Prelude.{
  ◌≡◌, ◌≢◌, refl, sym, ap, ◌∙◌, subst, inl, inr, String, Bool, true, false, ◌||◌, if◌then◌else◌,
  is_yes, String-discrete, Bool-cases, arith,
}
use sclaw.Security.RateLimit.{bucket_key}

abbrev colon : Char
colon = char 58 tt

unfoldable is_colon : Char → Bool
is_colon c = is_yes (String-discrete (text_cons c "") ":")

-- Some character is a colon.
unfoldable pub has_colon : String → Bool
unfolding is_colon
has_colon empty_text = false
has_colon (text_cons c s) = is_colon c || has_colon s

-- The text before and behind the last colon.
session_of : String → String
unfolding has_colon
session_of empty_text = ""
session_of (text_cons c s) = let rest = session_of s in if has_colon s then text_cons c rest else ""

kind_of : String → String
unfolding has_colon
kind_of empty_text = ""
kind_of (text_cons c s) = let rest = kind_of s in if has_colon s then rest else s

after_colon : (t : String) → ":" ++ t ≡ text_cons colon t
after_colon t = cons colon "" t ∙ ap (text_cons colon) (nil t)

colon_is : is_colon colon ≡ true
unfolding is_colon String-discrete
colon_is = refl

has_colon-key : (s t : String) → has_colon (s ++ ":" ++ t) ≡ true
unfolding has_colon is_colon
has_colon-key empty_text t =
    ap has_colon (nil (":" ++ t) ∙ after_colon t) ∙ ground (arith, colon_is)
has_colon-key (text_cons c s) t =
    ap has_colon (cons c s (":" ++ t)) ∙ ground (arith, has_colon-key s t)

module _ (t : String) (plain : has_colon t ≡ false) where
  session_of-key : (s : String) → session_of (s ++ ":" ++ t) ≡ s
  unfolding session_of
  session_of-key empty_text = ap session_of (nil (":" ++ t) ∙ after_colon t) ∙ ground (arith, plain)
  session_of-key (text_cons c s) =
      ap session_of (cons c s (":" ++ t))
      ∙ (rw (has_colon-key s t) (ap (text_cons c) (session_of-key s)))

  kind_of-key : (s : String) → kind_of (s ++ ":" ++ t) ≡ t
  unfolding kind_of
  kind_of-key empty_text = ap kind_of (nil (":" ++ t) ∙ after_colon t) ∙ ground (arith, plain)
  kind_of-key (text_cons c s) =
      ap kind_of (cons c s (":" ++ t)) ∙ (rw (has_colon-key s t) (kind_of-key s))

session_of-longer :
    (s t : String) → has_colon t ≡ true → session_of (s ++ ":" ++ t) ≡ s ++ ":" ++ session_of t
unfolding session_of
session_of-longer empty_text t h =
    ap session_of (nil (":" ++ t) ∙ after_colon t)
    ∙ (rw h (sym (nil (":" ++ session_of t) ∙ after_colon (session_of t))))
session_of-longer (text_cons c s) t h =
    ap session_of (cons c s (":" ++ t))
    ∙ (rw (has_colon-key s t)
        (ap (text_cons c) (session_of-longer s t h) ∙ sym (cons c s (":" ++ session_of t))))

-- A key belongs to one session and kind, if the kind has no colon.
pub bucket_key-eq :
    (s t k l : String)
    → has_colon k ≡ false
    → has_colon l ≡ false
    → bucket_key s k ≡ bucket_key t l
    → (s ≡ t) × (k ≡ l)
unfolding bucket_key
bucket_key-eq s t k l p q e = (
  sym (session_of-key k p s) ∙ ap session_of e ∙ session_of-key l q t,
  sym (kind_of-key k p s) ∙ ap kind_of e ∙ kind_of-key l q t,
)

-- The keys of a session, and of those whose ids go on behind a colon, begin with its id and a colon.
pub bucket_key-own : (s k : String) → starts_with (bucket_key s k) (s ++ ":") ≡ true
unfolding bucket_key
bucket_key-own s k =
    subst (λ t. starts_with t (s ++ ":") ≡ true) (append_assoc s ":" k)
      (starts_with-append (s ++ ":") k)

pub bucket_key-longer :
    (s rest k : String) → starts_with (bucket_key (s ++ ":" ++ rest) k) (s ++ ":") ≡ true
unfolding bucket_key
bucket_key-longer s rest k =
    subst (λ t. starts_with t (s ++ ":") ≡ true)
      (append_assoc s ":" (rest ++ ":" ++ k)
        ∙ ap (λ t. s ++ t) (sym (append_assoc ":" rest (":" ++ k)))
        ∙ sym (append_assoc s (":" ++ rest) (":" ++ k)))
      (starts_with-append (s ++ ":") (rest ++ ":" ++ k))

-- The key of no other session does.
pub bucket_key-other :
    (s t k : String)
    → has_colon k ≡ false
    → t ≢ s
    → ((rest : String) → t ≢ s ++ ":" ++ rest)
    → starts_with (bucket_key t k) (s ++ ":") ≡ false
unfolding bucket_key
bucket_key-other s t k p n m = elim (Bool-cases (starts_with (t ++ ":" ++ k) (s ++ ":"))) [
  | inr b ↦ b
  | inl b ↦ absurd (at ((starts_with_iff (t ++ ":" ++ k) (s ++ ":")).0 b))
]
  where
    same : (u : String) → (s ++ ":") ++ u ≡ t ++ ":" ++ k → t ≡ session_of (s ++ ":" ++ u)
    same u e = sym (session_of-key k p t) ∙ ap session_of (sym e ∙ append_assoc s ":" u)

    at : ((u : String) × ((s ++ ":") ++ u ≡ t ++ ":" ++ k)) → ⊥
    at (u, e) = elim (Bool-cases (has_colon u)) [
      | inl h ↦ m (session_of u) (same u e ∙ session_of-longer s u h)
      | inr h ↦ n (same u e ∙ session_of-key u h s)
    ]
