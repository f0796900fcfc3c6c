-- ===== src/HostCalls/Store.antt =====
-- modulesdk/hostclient.go: the store's calls from the client's interceptor through the stub's to the
-- handlers in modulesdk/testkit/hostserver.go, and that they are the calls of `StoreClient`. A value
-- with `found` is an option.
use weaveplatform_sdk.Base.{◌≡◌, List, [], ◌++◌, Option, none, some, arith, Bytes, if◌then◌else◌}
use weaveplatform_sdk.Errors.{Status, GoError, sentinel_err}
use weaveplatform_sdk.HostData.{HostData, store_get, store_put, store_delete, store_keys}
use weaveplatform_sdk.HostData.StoreLaws.{stub_store}
use weaveplatform_sdk.StoreClient as StoreClient
use weaveplatform_sdk.StoreClient.{Rpc, Reply, store_prefix, trim_keys}
use weaveplatform_sdk.HostCalls.{Answer, invoke, guarded, returned, wrong_token}
use weaveplatform_sdk.HostCalls.Gate.{admits, unauthenticated, invoke-guarded}

unfoldable pub serve_get : Bytes → HostData → Answer (Option Bytes)
serve_get key d = (d, store_get key d, none)

unfoldable pub serve_put : Bytes → Bytes → HostData → Answer (Unit {0})
serve_put key value d = (store_put key value d, tt, none)

unfoldable pub serve_delete : Bytes → HostData → Answer (Unit {0})
serve_delete key d = (store_delete key d, tt, none)

unfoldable pub serve_list : Bytes → HostData → Answer (List Bytes)
serve_list prefix d = (d, store_keys prefix d, none)

-- An answer as `StoreClient` has it.
abbrev pub as_reply : {A : Type 0} → Answer A → Reply A × HostData
as_reply (d, a, none) = (Reply.ok a, d)
as_reply (d, a, some e) = (Reply.err e, d)

module _ (from_error : GoError → Option Status) (token wanted : Bytes) (held : List Bytes)
    (ns : Bytes) where
  unfoldable pub get : Bytes → HostData → Answer (Option Bytes)
  get key d =
      returned none (λ v. v)
        (invoke from_error token (guarded wanted none (serve_get (store_prefix ns ++ key))) held d)

  unfoldable pub put : Bytes → Bytes → HostData → Answer (Unit {0})
  put key value d =
      invoke from_error token (guarded wanted tt (serve_put (store_prefix ns ++ key) value)) held d

  unfoldable pub delete : Bytes → HostData → Answer (Unit {0})
  delete key d =
      invoke from_error token (guarded wanted tt (serve_delete (store_prefix ns ++ key))) held d

  unfoldable pub list : Bytes → HostData → Answer (List Bytes)
  list prefix d =
      returned [] (trim_keys (store_prefix ns)) (
        invoke from_error token (guarded wanted [] (serve_list (store_prefix ns ++ prefix))) held d)

  -- How a call goes, by the stub's test of the token.
  abbrev pub rpc : Rpc
  rpc = if admits token wanted held then Rpc.answered else Rpc.failed unauthenticated

  -- Where gRPC finds the status in the stub's refusal: the four calls of the client's store against the
  -- stub's handlers are those of a client over the stub's store itself, answered if the stub takes the
  -- module's token, and else failed with the refusal, before the store has done anything.
  pub store_calls_lem :
      (key value : Bytes) (d : HostData)
      → from_error unauthenticated ≡ some wrong_token
      → (as_reply (get key d) ≡ StoreClient.get stub_store rpc ns key d)
        × (as_reply (put key value d) ≡ StoreClient.put stub_store rpc ns key value d)
        × (as_reply (delete key d) ≡ StoreClient.delete stub_store rpc ns key d)
        × (as_reply (list key d) ≡ StoreClient.list stub_store rpc ns key d)
  unfolding get put delete list returned serve_get serve_put serve_delete serve_list sentinel_err
      StoreClient.get StoreClient.put StoreClient.delete StoreClient.list
  store_calls_lem key value d finds = (
    ground (
      arith,
      invoke-guarded from_error token wanted held none (serve_get (store_prefix ns ++ key)) d finds,
    ),
    ground (
      arith,
      invoke-guarded from_error token wanted held tt (serve_put (store_prefix ns ++ key) value) d
          finds,
    ),
    ground (
      arith,
      invoke-guarded from_error token wanted held tt (serve_delete (store_prefix ns ++ key)) d
          finds,
    ),
    ground (
      arith,
      invoke-guarded from_error token wanted held [] (serve_list (store_prefix ns ++ key)) d finds,
    ),
  )
