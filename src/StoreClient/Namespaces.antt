-- ===== src/StoreClient/Namespaces.antt =====
-- modulesdk/hostclient.go: which namespaces share keys.
use mathlib.Core.List.{append_assoc}
use weaveplatform_sdk.Base.{
  ◌≡◌, ◌≢◌, refl, sym, ap, ◌∙◌, true, false, [], ◌∷◌, ◌++◌, some, Bytes, same, same_iff, Bool-cases,
  inl, inr, Lacks, before_sep,
}
use weaveplatform_sdk.StoreClient.{StoreService, Rpc, Reply, store_prefix, get, put, delete}

-- A namespace that is not the root and holds no slash.
abbrev pub IsFlat : Bytes → Type 0
IsFlat ns = (ns ≢ []) × Lacks b'/' ns

store_prefix_lem : (ns key : Bytes) → ns ≢ [] → store_prefix ns ++ key ≡ ns ++ (b'/' ∷ key)
unfolding store_prefix
store_prefix_lem [] key h = absurd (h refl)
store_prefix_lem (c ∷ ns) key h = append_assoc (c ∷ ns) (b'/' ∷ []) key

pub flat_keys :
    (a b k j : Bytes)
    → IsFlat a
    → IsFlat b
    → store_prefix a ++ k ≡ store_prefix b ++ j
    → (a ≡ b) × (k ≡ j)
flat_keys a b k j fa fb e =
    before_sep b'/' a b k j fa.1 fb.1
      (sym (store_prefix_lem a k fa.0) ∙ e ∙ store_prefix_lem b j fb.0)

overlap_key :
    (a b k : Bytes)
    → a ≢ []
    → same (store_prefix (a ++ (b'/' ∷ b)) ++ k) (store_prefix a ++ (b ++ (b'/' ∷ k))) ≡ true
unfolding store_prefix
overlap_key [] b k h = absurd (h refl)
overlap_key (c ∷ a) b k h = (same_iff _ _).1 (simp append_assoc)

keys_differ :
    (a b k j : Bytes)
    → IsFlat a
    → IsFlat b
    → a ≢ b
    → same (store_prefix a ++ k) (store_prefix b ++ j) ≡ false
keys_differ a b k j fa fb ne =
    elim (Bool-cases (same (store_prefix a ++ k) (store_prefix b ++ j))) [
      | inr e ↦ e
      | inl e ↦ absurd (
          ne
            (flat_keys a b k j fa fb
              ((same_iff (store_prefix a ++ k) (store_prefix b ++ j)).0 e)).0)
    ]

module _ {D : Type 0} (service : StoreService D) where
  unseen :
      (a b k j v : Bytes) (d : D)
      → IsFlat a
      → IsFlat b
      → a ≢ b
      → (service.get (store_prefix b ++ j) (service.put (store_prefix a ++ k) v d)
          ≡ service.get (store_prefix b ++ j) d)
        × (service.get (store_prefix b ++ j) (service.delete (store_prefix a ++ k) d)
            ≡ service.get (store_prefix b ++ j) d)
  unseen a b k j v d fa fb ne = (
    rw
        (
          service.get-put (store_prefix a ++ k) (store_prefix b ++ j) v d,
          keys_differ a b k j fa fb ne,
        )
        refl,
    rw
        (
          service.get-delete (store_prefix a ++ k) (store_prefix b ++ j) d,
          keys_differ a b k j fa fb ne,
        )
        refl,
  )

  -- What a client of one namespace writes or deletes, however the call goes, a client of another
  -- does not see, if neither namespace is the root or holds a slash.
  pub isolated :
      (rpc : Rpc) (a b k j v : Bytes) (d : D)
      → IsFlat a
      → IsFlat b
      → a ≢ b
      → ((get service Rpc.answered b j (put service rpc a k v d).1).0
          ≡ (get service Rpc.answered b j d).0)
        × ((get service Rpc.answered b j (delete service rpc a k d).1).0
            ≡ (get service Rpc.answered b j d).0)
  unfolding get put delete
  isolated Rpc.answered a b k j v d fa fb ne =
      let (p, q) = unseen a b k j v d fa fb ne in (ap Reply.ok p, ap Reply.ok q)
  isolated (Rpc.failed e) a b k j v d fa fb ne = (refl, refl)
  isolated (Rpc.lost e) a b k j v d fa fb ne =
      let (p, q) = unseen a b k j v d fa fb ne in (ap Reply.ok p, ap Reply.ok q)

  -- A namespace with a slash overlaps the one in front of the slash: what is put into "a/b" under
  -- "k" is found in "a" under "b/k", if "a" is not the root.
  pub overlap :
      (a b k v : Bytes) (d : D)
      → a ≢ []
      → (get service Rpc.answered a
          (b ++ (b'/' ∷ k))
          (put service Rpc.answered (a ++ (b'/' ∷ b)) k v d).1).0
        ≡ Reply.ok (some v)
  unfolding get put
  overlap a b k v d ha =
      rw
        (
          service.get-put (store_prefix (a ++ (b'/' ∷ b)) ++ k)
              (store_prefix a ++ (b ++ (b'/' ∷ k))) v d,
          overlap_key a b k ha,
        )
        refl
