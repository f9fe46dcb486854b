-- ===== src/Rtk/Config/Paths.antt =====
-- The lookup and the assignment of j[k][l]… in Rtk/Config.antt, under what the JSON library documents
-- of its operators and of the texts that it prints.
use mandeye_controller.Prelude.{
  ◌≡◌, refl, sym, ap, Bool, true, false, not, ◌&&◌, some, List, [], ◌∷◌, if◌then◌else◌, Text,
  text_eq, text_eq_eq, ◌⊎◌, inl, inr, Bool-cases,
}
use mandeye_controller.Prelude.Options.{bind-some}
use mandeye_controller.Prelude.Int.{ℤ}
use mandeye_controller.Rtk.Config.{Json, at, put_at}

module _ (js : Json) where
  open js use {
    J, Content, null, is_object, has_no_entry, entry, put, text, number, get_text, get_int, print,
    parse,
  }

  -- What the code relies on: a value is read where it was put, the other keys stay, what was put into is
  -- an object with an entry, an entry that can be read can be put, null and objects alone take entries, and a value
  -- that was built from the code's texts and numbers is read back, in memory and from a file.
  pub record JsonLaws : Type 0 where
    pub entry-put : (k : Text) (v : J) (j : J) {o : J} → put k v j ≡ some o → entry k o ≡ some v
    pub entry-put_other :
        (k l : Text) (v : J) (j : J) {o : J}
        → put k v j ≡ some o
        → text_eq k l ≡ false
        → entry l o ≡ entry l j
    pub put-object :
        (k : Text) (v : J) (j : J) {o : J}
        → put k v j ≡ some o
        → is_object o && not (has_no_entry o) ≡ true
    pub put_entry :
        (k : Text) (v : J) (j : J) {o : J} → entry k j ≡ some o → (p : J) × (put k v j ≡ some p)
    pub entry-null : (k : Text) → entry k null ≡ some null
    pub entry-object :
        (k : Text) (j : J) {o : J} → entry k j ≡ some o → (is_object j ≡ true) ⊎ (j ≡ null)
    pub null-object : is_object null ≡ false
    pub text-back : (t : Text) → get_text (text t) ≡ some t
    pub number-back : (n : ℤ) → get_int (number n) ≡ some n
    pub print-back : (j : J) {f : Content} → print j ≡ some f → parse f ≡ some j

-- Neither path leads through the other.
unfoldable pub apart : List Text → List Text → Bool
apart (k ∷ p) (l ∷ q) = let below = apart p q in if text_eq k l then below else true
apart p q = false

module _ (js : Json) (laws : JsonLaws js) where
  open js use {J, entry, put}

  pub at-put_at :
      (p : List Text) (v : J) (j : J) {o : J} → put_at js p v j ≡ some o → at js p o ≡ some v
  unfolding at put_at
  at-put_at [] v j e = cc
  at-put_at (k ∷ p) v j e =
      let (a, (found, e₁)) = bind-some (entry k j) _ _ e in
      let (b, (below, e₂)) = bind-some (put_at js p v a) _ _ e₁ in
      rw (laws.entry-put k b j e₂) (at-put_at p v a below)

  pub at-put_at_other :
      (p q : List Text) (v : J) (j : J) {o : J}
      → put_at js p v j ≡ some o
      → apart p q ≡ true
      → at js q o ≡ at js q j
  unfolding at put_at apart
  at-put_at_other [] q v j e h = absurd cc
  at-put_at_other (k ∷ p) [] v j e h = absurd cc
  at-put_at_other (k ∷ p) (l ∷ q) v j e h =
      let (a, (found, e₁)) = bind-some (entry k j) _ _ e in
      let (b, (below, e₂)) = bind-some (put_at js p v a) _ _ e₁ in
      elim (Bool-cases (text_eq k l)) [
        | inl same ↦
            let ih =
              at-put_at_other p q v a below
                (rw (sym (ap (λ b. if b then apart p q else true) same)) h) in
            rw (sym (text_eq_eq k l same), laws.entry-put k b j e₂, found) ih
        | inr other ↦ rw (laws.entry-put_other k l b j e₂ other) refl
      ]

  -- A value that can be read can be written.
  pub put_at_found :
      (p : List Text) (v u : J) (j : J) → at js p j ≡ some u → (o : J) × (put_at js p v j ≡ some o)
  unfolding at put_at
  put_at_found [] v u j e = (v, refl)
  put_at_found (k ∷ p) v u j e =
      let (a, (found, e₁)) = bind-some (entry k j) _ _ e in
      let (b, below) = put_at_found p v u a e₁ in
      let (o, done) = laws.put_entry k b j found in (o, rw (found, below, done) refl)
