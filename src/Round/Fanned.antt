-- ===== src/Round/Fanned.antt =====
-- modulesdk/testkit/hostdata.go: what the calls that send behind the mutex leave true of each receiver.
use weaveplatform_sdk.Base.{
  ℕ, ◌<◌, ◌≡◌, sym, ap, ◌∙◌, subst, List, [], ◌∷◌, ◌++◌, some, arith, length, length-append,
  length-set, set, get_elem?, get_elem?-lt-length, get_elem?-snoc, each_set, inl, inr,
}
use weaveplatform_sdk.Round.{
  Round, begun, moved, owed, owed_self, owed_other, owed_none, owed-begun, IsWithin, IsWithin-mono,
  IsWithin-moved, IsWithin-begun,
}

-- Each receiver is as `P` says, by what it is still owed.
pub record IsFanned {ℓ κ μ} {A : Type ℓ} {F : Type κ} (P : List A → F → Type μ)
    (rounds : List (Round A)) (items : List F) : Type (ℓ ⊔ κ ⊔ μ) where
  pub bounded : IsWithin (length items) rounds
  pub each : (i : ℕ) (f : F) → get_elem? items i ≡ some f → P (owed i rounds) f

module _ {ℓ κ μ ν} {A : Type ℓ} {F : Type κ} {P : List A → F → Type μ} {Q : List A → F → Type ν}
    (rounds : List (Round A)) (items : List F) (w : IsFanned P rounds items) where
  -- A call begins, and owes its item to each receiver that is there.
  pub IsFanned-begun :
      (item : A)
      → ((rest : List A) (f : F) → P rest f → Q (rest ++ item ∷ []) f)
      → IsFanned Q (rounds ++ begun item (length items) ∷ []) items
  IsFanned-begun item more = record {
    bounded = IsWithin-begun (length items) item rounds w.bounded;
    each = λ i f at.
        subst (λ l. Q l f)
          (sym (owed-begun i (length items) item rounds (get_elem?-lt-length items i f at)))
          (more (owed i rounds) f (w.each i f at));
  }

  -- A receiver comes that is owed nothing.
  pub IsFanned-added :
      (new : F)
      → ((rest : List A) (f : F) → P rest f → Q rest f)
      → Q [] new
      → IsFanned Q rounds (items ++ new ∷ [])
  IsFanned-added new keep fresh = record {
    bounded =
        IsWithin-mono (length items) _ rounds (omega (arith, length-append items (new ∷ [])))
          w.bounded;
    each = λ i f there. elim (get_elem?-snoc items i f new there) [
      | inl old ↦ keep (owed i rounds) f (w.each i f old)
      | inr (last, same) ↦
          subst (λ l. Q l f)
            (sym (owed_none i rounds (subst (λ j. IsWithin j rounds) (sym last) w.bounded)))
            (subst (Q []) (sym same) fresh)
    ];
  }

  -- A receiver moves by itself.
  pub IsFanned-set :
      (k : ℕ) (f g : F)
      → get_elem? items k ≡ some f
      → ((rest : List A) (h : F) → P rest h → Q rest h)
      → ((rest : List A) → P rest f → Q rest g)
      → IsFanned Q rounds (set items k g)
  IsFanned-set k f g at keep own = record {
    bounded = IsWithin-mono (length items) _ rounds (omega (arith, length-set items k g)) w.bounded;
    each =
        each_set (λ i h. Q (owed i rounds) h) items k f g at (own (owed k rounds) (w.each k f at))
          (λ i h other there. keep (owed i rounds) h (w.each i h there));
  }

  -- A call sends to its next receiver.
  pub IsFanned-moved :
      (before behind : List (Round A)) (x : Round A) (f g : F)
      → rounds ≡ before ++ x ∷ behind
      → x.next < x.upto
      → get_elem? items x.next ≡ some f
      → ((rest : List A) (h : F) → P rest h → Q rest h)
      → ((front back : List A) → P (front ++ x.item ∷ back) f → Q (front ++ back) g)
      → IsFanned Q (before ++ moved x ∷ behind) (set items x.next g)
  IsFanned-moved before behind x f g split more at keep sent =
      let (with_it, without) = owed_self before behind x more in
      record {
        bounded =
            IsWithin-mono (length items) _ (before ++ moved x ∷ behind)
              (omega (arith, length-set items x.next g))
              (IsWithin-moved (length items) before behind x
                (subst (IsWithin (length items)) split w.bounded));
        each =
            each_set (λ i h. Q (owed i (before ++ moved x ∷ behind)) h) items x.next f g at
              (subst (λ l. Q l g) (sym without)
                (sent (owed x.next before) (owed x.next behind)
                  (subst (λ l. P l f) (ap (owed x.next) split ∙ with_it) (w.each x.next f at))))
              (λ i h other there. keep _ h (
                subst (λ l. P l h) (ap (owed i) split ∙ sym (owed_other before behind x i other))
                  (w.each i h there)));
      }

pub none-IsFanned {ℓ κ μ} : {A : Type ℓ} {F : Type κ} (P : List A → F → Type μ) → IsFanned P [] []
unfolding IsWithin
none-IsFanned P = record { bounded = tt; each = λ i f at. cc }
