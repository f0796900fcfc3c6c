-- ===== src/StoreClient.antt =====
-- modulesdk/hostclient.go: the namespaced store of a module. `StoreService D` is core's store as the
-- client sees it, with what it documents; `D` is its state. An `Rpc` says how the call goes: the
-- service answers, or the call fails before or after the service has done its part.
pub mod Namespaces
pub mod View
use weaveplatform_sdk.Base.{
  ℕ, ◌≡◌, ◌≢◌, ◌↔◌, Bool, true, List, [], ◌∷◌, ◌++◌, map, Option, none, some, Bytes, same,
  if◌then◌else◌,
}
use weaveplatform_sdk.Base.Dict.{In, has_prefix, trim_prefix}
use weaveplatform_sdk.Errors.{GoError}

pub record StoreService (D : Type 0) : Type 0 where
  pub get : Bytes → D → Option Bytes
  pub put : Bytes → Bytes → D → D
  pub delete : Bytes → D → D
  pub list : Bytes → D → List Bytes
  pub get-put : (k j v : Bytes) (d : D) → get j (put k v d) ≡ (if same k j then some v else get j d)
  pub get-delete : (k j : Bytes) (d : D) → get j (delete k d) ≡ (if same k j then none else get j d)
  pub in-list :
      (p k : Bytes) (d : D) → In k (list p d) ↔ ((has_prefix p k ≡ true) × (get k d ≢ none))

pub data Rpc : Type 0 where
  answered : Rpc
  failed lost : GoError → Rpc

pub data Reply (A : Type 0) : Type 0 where
  ok : A → Reply A
  err : GoError → Reply A

-- The caller's result, and the service's state behind the call.
abbrev pub reply : {A D : Type 0} → Rpc → A → D → D → Reply A × D
reply Rpc.answered a before after = (Reply.ok a, after)
reply (Rpc.failed e) a before after = (Reply.err e, before)
reply (Rpc.lost e) a before after = (Reply.err e, after)

-- `hostClient.Store(ns)`: the prefix of the client's keys.
unfoldable pub store_prefix : Bytes → Bytes
store_prefix [] = []
store_prefix (c ∷ ns) = (c ∷ ns) ++ (b'/' ∷ [])

-- The keys that `List` returns.
unfoldable pub trim_keys : Bytes → List Bytes → List Bytes
trim_keys [] keys = keys
trim_keys (c ∷ p) keys = map (trim_prefix (c ∷ p)) keys

module _ {D : Type 0} (service : StoreService D) where
  open service use {
    get as service_get, put as service_put, delete as service_delete, list as service_list,
  }

  -- The value and `found`.
  unfoldable pub get : Rpc → Bytes → Bytes → D → Reply (Option Bytes) × D
  get rpc ns key d = reply rpc (service_get (store_prefix ns ++ key) d) d d

  unfoldable pub put : Rpc → Bytes → Bytes → Bytes → D → Reply (Unit {0}) × D
  put rpc ns key value d = reply rpc tt d (service_put (store_prefix ns ++ key) value d)

  unfoldable pub delete : Rpc → Bytes → Bytes → D → Reply (Unit {0}) × D
  delete rpc ns key d = reply rpc tt d (service_delete (store_prefix ns ++ key) d)

  unfoldable pub list : Rpc → Bytes → Bytes → D → Reply (List Bytes) × D
  list rpc ns prefix d =
      reply rpc (trim_keys (store_prefix ns) (service_list (store_prefix ns ++ prefix) d)) d d
