-- ===== src/Hostcall/Guards.antt =====
-- What the machine may ask of the desktop (web/app/hostcall.ts).
use vinx.Prelude.{
  ℕ, ◌≤◌, ◌≡◌, ◌≢◌, refl, sym, ap, subst, ◌∙◌, Bool, true, false, not, ◌&&◌, Option, none, some,
  List, [], ◌∷◌, ◌++◌, arith, leb, leb→le, if_true, if_false, ==_iff, ◌==◌, length, take, drop,
  take-append-drop, text_eq_iff, all, All, Bool-cases, inl, inr,
}
use vinx.Prelude.Text.{codes, is_empty}
use vinx.Share.{starts_with_dot}
use vinx.Rpc.Json.{Json, Number, as_string, as_number}
use vinx.Hostcall.{
  tmp_prefix, Fault, invalid_params, resource_invalid, Result, ok, err, RefIo, Serve, raise,
  or_raise, ◌>>=◌,
}
use vinx.Hostcall.Refs.{
  is_bare, is_base, base_of, starts_with, Ref, ref_path, agreeing, disagrees, or_nothing, part,
  read_ref,
}
use vinx.Hostcall.Devices.{is_camera_name, is_word_or_dash, if_filled, text_in, want_str, want}

-- What every result satisfies, in the state that it comes with.
abbrev pub AllOk : {S A : Type 0} → (A → S → Type 0) → Result A × S → Type 0
AllOk P (ok a, s) = P a s
AllOk P (err f, s) = Unit

module _ {S : Type 0} (s : S) where
  after_ok :
      {A B : Type 0} (Q : A → Type 0) (P : B → S → Type 0) (r : Result A × S) (f : A → Serve S B)
      → AllOk (λ a s'. Q a × (s' ≡ s)) r
      → ((a : A) → Q a → AllOk P (f a s))
      → AllOk P (elim r.0 as (λ x. Result B × S) [ ok a ↦ f a r.1 | err e ↦ raise e r.1 ])
  after_ok Q P (ok a, s') f (q, same) next = subst (λ t. AllOk P (f a t)) (sym same) (next a q)
  after_ok Q P (err e, s') f h next = tt

  -- The rule of a call that changes nothing and what goes on after it.
  pub bind-AllOk :
      {A B : Type 0} (Q : A → Type 0) (P : B → S → Type 0) (m : Serve S A) (f : A → Serve S B)
      → AllOk (λ a s'. Q a × (s' ≡ s)) (m s)
      → ((a : A) → Q a → AllOk P (f a s))
      → AllOk P ((m >>= f) s)
  bind-AllOk Q P m f h next = after_ok Q P (m s) f h next

  pub want-AllOk : (b : Bool) (f : Fault) → AllOk (λ a s'. (b ≡ true) × (s' ≡ s)) (want b f s)
  want-AllOk true f = (refl, refl)
  want-AllOk false f = tt

  pub want_str-AllOk :
      (key : List ℕ) (params : Json)
      → AllOk (λ text s'. (is_empty text ≡ false) × (s' ≡ s)) (want_str key params s)
  want_str-AllOk key params = filled (text_in key params)
    where
      filled :
          (text : List ℕ)
          → AllOk
              (λ t s'. (is_empty t ≡ false) × (s' ≡ s))
              (or_raise {S = S} (if_filled text) invalid_params s)
      filled [] = tt
      filled (c ∷ cs) = (refl, refl)

-- A name of one segment.
abbrev pub IsPlain : List ℕ → Type 0
IsPlain name = (is_empty name ≡ false) × (All (λ c. c ≢ b'/') name)

slash : is_bare b'/' ≡ true → ⊥
slash e = cc

all-IsPlain : (name : List ℕ) → all is_bare name ≡ true → All (λ c. c ≢ b'/') name
all-IsPlain [] h = tt
all-IsPlain (c ∷ cs) h = elim (Bool-cases (is_bare c)) [
  | inl bare ↦ (λ e. slash (subst (λ x. is_bare x ≡ true) e bare), all-IsPlain cs (ground arith))
  | inr odd ↦ absurd (ground arith)
]

pub both_true : (a b : Bool) → (a && b) ≡ true → (a ≡ true) × (b ≡ true)
both_true true b h = (refl, h)
both_true false b h = absurd (cc)

no_slash : is_word_or_dash b'/' ≡ true → ⊥
no_slash e = cc

no_dot : is_word_or_dash b'.' ≡ true → ⊥
no_dot e = cc

pub camera-IsPlain :
    (name : List ℕ)
    → is_camera_name name ≡ true
    → All (λ c. c ≢ b'/') name × (starts_with_dot name ≡ false) × (length name ≤ 64)
unfolding is_camera_name
camera-IsPlain [] h = absurd (cc)
camera-IsPlain (c ∷ cs) h =
    let (first, others) = both_true (is_word_or_dash c) (leb (length cs) 63 && all is_bare cs) h in
    let (short, bare) = both_true (leb (length cs) 63) (all is_bare cs) others in
    (
      (λ e. no_slash (subst (λ x. is_word_or_dash x ≡ true) e first), all-IsPlain cs bare),
      elim (Bool-cases (c == b'.')) [
        | inl dot ↦
            absurd (no_dot (subst (λ x. is_word_or_dash x ≡ true) ((==_iff c b'.').0 dot) first))
        | inr other ↦ other
      ],
      omega (arith, leb→le (length cs) 63 short),
    )

take_base : (path : List ℕ) → starts_with tmp_prefix path ≡ true → tmp_prefix ++ base_of path ≡ path
take_base path h =
    let n = length tmp_prefix in
    ap (◌++◌ tmp_prefix) (if_true (starts_with tmp_prefix path) (drop n path) [] h)
    ∙ ap (λ t. t ++ drop n path) (sym ((text_eq_iff (take n path) tmp_prefix).0 h))
    ∙ take-append-drop n path

-- Bytes of a file under a name of one segment in the directory of session resources; `.` and `..` are
-- such names to the code.
abbrev pub FromTmp : {S : Type 0} → RefIo S → S → List ℕ → Type 0
FromTmp io s bytes = (base : List ℕ) × IsPlain base × (io.read s (tmp_prefix ++ base) ≡ some bytes)

none-some : {A : Type 0} {a : A} → none ≡ some a → ⊥
none-some e = cc

pub not-not : (b : Bool) → not b ≡ true → b ≡ false
not-not true e = absurd (cc)
not-not false e = refl

-- Only a path under the directory has a base.
under : (path : List ℕ) → is_base (base_of path) ≡ true → starts_with tmp_prefix path ≡ true
under path h = elim (Bool-cases (starts_with tmp_prefix path)) [
  | inl it ↦ it
  | inr no_way ↦ absurd (
      no_base
        (subst (λ b. is_base b ≡ true) (if_false (starts_with tmp_prefix path) _ [] no_way) h))
]
  where
    no_base : is_base [] ≡ true → ⊥
    no_base e = cc

ref_path-IsPlain :
    (ref : Option Json) (r : Ref)
    → ref_path ref ≡ some r
    → (base : List ℕ) × IsPlain base × (r.path ≡ tmp_prefix ++ base)
unfolding ref_path
ref_path-IsPlain ref r e = elim (Bool-cases (is_base (base_of path))) [
  | inr odd ↦ absurd (none-some (sym (if_false (is_base (base_of path)) _ none odd) ∙ e))
  | inl base ↦
      let (filled, bare) = both_true _ _ base in
      let same : named.path ≡ r.path =
        ap path_in (sym (if_true (is_base (base_of path)) (some named) none base) ∙ e) in
      (
        base_of path,
        (not-not _ filled, all-IsPlain (base_of path) bare),
        sym same ∙ sym (take_base path (under path base)),
      )
]
  where
    path : List ℕ
    path = or_nothing (as_string (part (codes "path") ref))

    named : Ref
    named = record { path = path; size = as_number (part (codes "size") ref) }

    path_in : Option Ref → List ℕ
    path_in none = []
    path_in (some q) = q.path

module _ {S : Type 0} (io : RefIo S) (s : S) where
  agreeing-AllOk :
      (path base : List ℕ) (size : Option Number) (o : Option (List ℕ))
      → IsPlain base
      → path ≡ tmp_prefix ++ base
      → io.read s path ≡ o
      → AllOk (λ bytes s'. FromTmp io s bytes × (s' ≡ s)) (agreeing io size o s)
  agreeing-AllOk path base size none plain is e = tt
  agreeing-AllOk path base size (some bytes) plain is e =
      elim (Bool-cases (disagrees (length bytes) size)) [
        | inl bad ↦ rw bad tt
        | inr good ↦ rw good ((base, plain, ap (io.read s) (sym is) ∙ e), refl)
      ]

  pub read_ref-AllOk :
      (ref : Option Json) → AllOk (λ bytes s'. FromTmp io s bytes × (s' ≡ s)) (read_ref io ref s)
  unfolding read_ref
  read_ref-AllOk ref = go (ref_path ref) refl
    where
      go :
          (o : Option Ref)
          → ref_path ref ≡ o
          → AllOk
              (λ bytes s'. FromTmp io s bytes × (s' ≡ s))
              ((or_raise o resource_invalid >>= λ (r : Ref).
                  λ (t : S). agreeing io r.size (io.read t r.path) t)
                s)
      go none e = tt
      go (some r) e =
          let (base, plain, is) = ref_path-IsPlain ref r e in
          agreeing-AllOk r.path base r.size _ plain is refl
