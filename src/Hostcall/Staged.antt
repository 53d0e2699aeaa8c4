-- ===== src/Hostcall/Staged.antt =====
-- A result that went into a file is accepted when it is named again (web/app/hostcall.ts).
use vinx.Prelude.{
  ap, ℕ, ◌≡◌, refl, Bool, true, some, List, [], ◌∷◌, ◌++◌, ==_refl, length, text_eq, all, arith,
  Bool-cases, inl, inr,
}
use vinx.Prelude.Text.{codes}
use vinx.Rpc.Json.{Json, whole, num, str, obj, field, end, property, get_field}
use vinx.Hostcall.{tmp_prefix, ok, RefIo, Serve, raise, ◌>>=◌, Result, err}
use vinx.Hostcall.Refs.{is_bare, is_base, ref_path, safe_char, safe_id, read_ref}

-- The machine's files keep what is written.
pub record IsRefIo {S : Type 0} (io : RefIo S) : Type 0 where
  pub read-write :
      (s s' : S) (path bytes : List ℕ)
      → io.write s path bytes ≡ some s'
      → io.read s' path ≡ some bytes

-- `{path, size}`
abbrev pub ref_of : List ℕ → ℕ → Json
ref_of path size =
    obj (field (codes "path") (str path) (field (codes "size") (num (whole size)) end))

-- What goes on after a call that went through.
pub bind_ok :
    {S A B : Type 0} (m : Serve S A) (f : A → Serve S B) (s s' : S) (a : A)
    → m s ≡ (ok a, s')
    → (m >>= f) s ≡ f a s'
bind_ok {S} {A} {B} m f s s' a e =
    ap
      (λ (r : Result A × S). elim r.0 as (λ x. Result B × S) [
        | ok a ↦ f a r.1
        | err e ↦ raise e r.1
      ])
      e

pub all_append :
    (p : ℕ → Bool) (xs ys : List ℕ) → all p xs ≡ true → all p ys ≡ true → all p (xs ++ ys) ≡ true
all_append p [] ys hx hy = hy
all_append p (x ∷ xs) ys hx hy = elim (Bool-cases (p x)) [
  | inl bare ↦ rw bare (all_append p xs ys (ground arith) hy)
  | inr odd ↦ absurd (cc)
]

safe_char-bare : (c : ℕ) → is_bare (safe_char c) ≡ true
safe_char-bare c = elim (Bool-cases (is_bare c)) [ inl bare ↦ rw bare bare | inr odd ↦ rw odd refl ]

pub all-safe_id : (id : List ℕ) → all is_bare (safe_id id) ≡ true
unfolding safe_id
all-safe_id [] = refl
all-safe_id (c ∷ cs) = rw (safe_char-bare c) (all-safe_id cs)

ref_path-staged :
    (name : List ℕ) (size : ℕ)
    → is_base name ≡ true
    → ref_path (some (ref_of (tmp_prefix ++ name) size))
      ≡ some (record { path = tmp_prefix ++ name; size = some (whole size) })
unfolding ref_path property get_field text_eq
ref_path-staged name size h = rw h refl

module _ {S : Type 0} (io : RefIo S) (laws : IsRefIo io) where
  pub read_ref-written :
      (s s' : S) (name bytes : List ℕ)
      → is_base name ≡ true
      → io.write s (tmp_prefix ++ name) bytes ≡ some s'
      → read_ref io (some (ref_of (tmp_prefix ++ name) (length bytes))) s' ≡ (ok bytes, s')
  unfolding read_ref
  read_ref-written s s' name bytes h wrote =
      rw
        (
          ref_path-staged name (length bytes) h,
          laws.read-write s s' _ bytes wrote,
          ==_refl (length bytes),
        )
        refl
