-- ===== src/StoreClient/View.antt =====
-- modulesdk/hostclient.go: one namespace of the store is a map of its own.
use mathlib.Core.Path.{ap₂, fun_ext}
use weaveplatform_sdk.Base.{
  ◌≡◌, ◌≢◌, ◌↔◌, refl, sym, ap, ◌∙◌, true, List, [], ◌∷◌, ◌++◌, map, Option, none, some, arith,
  Bytes, same, cut_prefix, cut_prefix-append, cut_prefix_sound, if◌then◌else◌, inl, inr,
  Option-cases,
}
use weaveplatform_sdk.Base.Dict.{In, has_prefix, trim_prefix}
use weaveplatform_sdk.StoreClient.{
  StoreService, Rpc, Reply, store_prefix, trim_keys, get, put, delete, list,
}

same-append : (p k j : Bytes) → same (p ++ k) (p ++ j) ≡ same k j
unfolding same
same-append [] k j = refl
same-append (c ∷ p) k j = ground (arith, same-append p k j)

-- A map, and what its user may do.
abbrev pub Map : Type 0
Map = Bytes → Option Bytes

pub data Op : Type 0 where
  get_op delete_op : Bytes → Op
  put_op : Bytes → Bytes → Op

-- One operation on a map, with its answer; only a read answers with a value.
pub map_step : Op → Map → Option Bytes × Map
map_step (Op.get_op k) f = (f k, f)
map_step (Op.delete_op k) f = (none, λ j. if same k j then none else f j)
map_step (Op.put_op k v) f = (none, λ j. if same k j then some v else f j)

pub map_run : List Op → Map → List (Option Bytes)
map_run [] f = []
map_run (o ∷ os) f = (map_step o f).0 ∷ map_run os (map_step o f).1

pub reply_value : Reply (Option Bytes) → Option Bytes
reply_value (Reply.ok v) = v
reply_value (Reply.err e) = none

module _ {D : Type 0} (service : StoreService D) (ns : Bytes) where
  pub view : D → Map
  view d k = service.get (store_prefix ns ++ k) d

  -- The same operation through the client, when the service answers.
  pub client_step : Op → D → Option Bytes × D
  client_step (Op.get_op k) d =
      (reply_value (get service Rpc.answered ns k d).0, (get service Rpc.answered ns k d).1)
  client_step (Op.delete_op k) d = (none, (delete service Rpc.answered ns k d).1)
  client_step (Op.put_op k v) d = (none, (put service Rpc.answered ns k v d).1)

  pub client_run : List Op → D → List (Option Bytes)
  client_run [] d = []
  client_run (o ∷ os) d = (client_step o d).0 ∷ client_run os (client_step o d).1

  client_step_value : (o : Op) (d : D) → (client_step o d).0 ≡ (map_step o (view d)).0
  unfolding client_step map_step get reply_value view
  client_step_value (Op.get_op k) d = refl
  client_step_value (Op.delete_op k) d = refl
  client_step_value (Op.put_op k v) d = refl

  view-client_step :
      (o : Op) (d : D) (j : Bytes) → view (client_step o d).1 j ≡ (map_step o (view d)).1 j
  unfolding client_step map_step get put delete view
  view-client_step (Op.get_op k) d j = refl
  view-client_step (Op.delete_op k) d j =
      rw
        (
          service.get-delete (store_prefix ns ++ k) (store_prefix ns ++ j) d,
          same-append (store_prefix ns) k j,
        )
        refl
  view-client_step (Op.put_op k v) d j =
      rw
        (
          service.get-put (store_prefix ns ++ k) (store_prefix ns ++ j) v d,
          same-append (store_prefix ns) k j,
        )
        refl

  -- Reads, writes and deletes through the client of a namespace, in any order, answer as those on a
  -- map do that begins as the namespace's part of the store, as long as the service answers.
  pub client_refines_map : (os : List Op) (d : D) → client_run os d ≡ map_run os (view d)
  unfolding client_run map_run
  client_refines_map [] d = refl
  client_refines_map (o ∷ os) d =
      ap₂ ◌∷◌ (client_step_value o d) (
        client_refines_map os (client_step o d).1
        ∙ ap (map_run os) (fun_ext (view-client_step o d)))

has_prefix-cut : (p s : Bytes) → has_prefix p s ≡ true → p ++ trim_prefix p s ≡ s
unfolding has_prefix trim_prefix
has_prefix-cut p s h = elim (Option-cases (cut_prefix p s)) [
  | inl e ↦ let impossible = rw (e, has_prefix) at h in cc
  | inr (r, e) ↦ rw (e, trim_prefix) (sym (cut_prefix_sound p s e))
]

trim_prefix-append : (p s : Bytes) → trim_prefix p (p ++ s) ≡ s
unfolding trim_prefix
trim_prefix-append p s = rw (cut_prefix-append p s, trim_prefix) refl

cut_prefix-append_append : (p q s : Bytes) → cut_prefix (p ++ q) (p ++ s) ≡ cut_prefix q s
unfolding cut_prefix
cut_prefix-append_append [] q s = refl
cut_prefix-append_append (c ∷ p) q s = ground (arith, cut_prefix-append_append p q s)

has_prefix-append : (p q s : Bytes) → has_prefix (p ++ q) (p ++ s) ≡ has_prefix q s
unfolding has_prefix
has_prefix-append p q s = rw (cut_prefix-append_append p q s, has_prefix) refl

has_prefix_shorter : (p q s : Bytes) → has_prefix (p ++ q) s ≡ true → has_prefix p s ≡ true
unfolding has_prefix cut_prefix
has_prefix_shorter [] q s h = refl
has_prefix_shorter (c ∷ p) q [] h = h
has_prefix_shorter (c ∷ p) q (d ∷ s) h = ground (arith, has_prefix_shorter p q s)

In-map_trim :
    (p k : Bytes) (ks : List Bytes)
    → ((j : Bytes) → In j ks → has_prefix p j ≡ true)
    → In k (map (trim_prefix p) ks)
    → In (p ++ k) ks
In-map_trim p k [] all h = h
In-map_trim p k (j ∷ ks) all (inl e) =
    inl (ap (λ s. p ++ s) e ∙ has_prefix-cut p j (all j (inl refl)))
In-map_trim p k (j ∷ ks) all (inr h) = inr (In-map_trim p k ks (λ i m. all i (inr m)) h)

In-trimmed : (p k : Bytes) (ks : List Bytes) → In (p ++ k) ks → In k (map (trim_prefix p) ks)
In-trimmed p k [] h = h
In-trimmed p k (j ∷ ks) (inl e) = inl (sym (trim_prefix-append p k) ∙ ap (trim_prefix p) e)
In-trimmed p k (j ∷ ks) (inr h) = inr (In-trimmed p k ks h)

In-trim_keys :
    (p k : Bytes) (ks : List Bytes)
    → ((j : Bytes) → In j ks → has_prefix p j ≡ true)
    → In k (trim_keys p ks) ↔ In (p ++ k) ks
unfolding trim_keys
In-trim_keys [] k ks all = (λ h. h, λ h. h)
In-trim_keys (c ∷ p) k ks all = (In-map_trim (c ∷ p) k ks all, In-trimmed (c ∷ p) k ks)

module _ {D : Type 0} (service : StoreService D) (ns : Bytes) where
  -- `List` answers with exactly the keys of the namespace that have the prefix, without the
  -- namespace in front, whatever the namespace is.
  pub list_iff :
      (q : Bytes) (d : D)
      → (keys : List Bytes) × ((list service Rpc.answered ns q d).0 ≡ Reply.ok keys)
        × ((k : Bytes) → In k keys ↔ ((has_prefix q k ≡ true) × (view service ns d k ≢ none)))
  unfolding list view
  list_iff q d = (
    trim_keys (store_prefix ns) (service.list (store_prefix ns ++ q) d),
    refl,
    λ k.
        let p = store_prefix ns in
        let listed = service.in-list (p ++ q) (p ++ k) d in
        let trimmed =
          In-trim_keys p k (service.list (p ++ q) d)
            (λ j m. has_prefix_shorter p q j ((service.in-list (p ++ q) j d).0 m).0) in
        (
          λ h. let (a, b) = listed.0 (trimmed.0 h) in (sym (has_prefix-append p q k) ∙ a, b),
          λ h. trimmed.1 (listed.1 (has_prefix-append p q k ∙ h.0, h.1)),
        ),
  )
