-- ===== src/HostCalls/Policy.antt =====
-- modulesdk/hostclient.go (`policyClient.Get`) with modulesdk/testkit/hostserver.go (`policyServer.Get`):
-- the policy, read once, and what the streams of the watchers deliver of it. The policy's part of
-- `HostData` is the `Policy` of `PolicyWatch.Watchers`.
use weaveplatform_sdk.Base.{
  ℕ, ◌^◌, ◌<◌, ◌≡◌, refl, ◌∙◌, true, false, List, [], Option, none, some, arith, Bytes, get_elem?,
  if◌then◌else◌,
}
use weaveplatform_sdk.Errors.{Status, GoError, sentinel_err}
use weaveplatform_sdk.HostData.{HostData}
use weaveplatform_sdk.HostCalls.{
  Answer, PolicyDocument, policy_doc, invoke, guarded, returned, wrong_token,
}
use weaveplatform_sdk.HostCalls.Gate.{admits, unauthenticated, invoke-guarded}
use weaveplatform_sdk.PolicyWatch.{Stage}
use weaveplatform_sdk.PolicyWatch.Current.{EndsIn}
use weaveplatform_sdk.PolicyWatch.Watchers.{Slot, Policy, PolicyReach}
use weaveplatform_sdk.PolicyWatch.Watchers.Views.{watcher_current}
use weaveplatform_sdk.Round.{owed}

abbrev pub no_document : PolicyDocument
no_document = record { revision = 0; payload = []; schema_version = 0; content_type = [] }

-- `HostData.Policy` and the stub's handler: the message has the two fields.
unfoldable pub serve_policy : Policy → HostData → Answer PolicyDocument
serve_policy p d = (d, record no_document { revision = p.revision; payload = p.document }, none)

module _ (from_error : GoError → Option Status) (token wanted : Bytes) (held : List Bytes) where
  -- `policyClient.Get`
  unfoldable pub get_policy : Policy → HostData → Answer PolicyDocument
  get_policy p d =
      returned no_document policy_doc
        (invoke from_error token (guarded wanted no_document (serve_policy p)) held d)

  get_policy_lem :
      (p : Policy) (d : HostData)
      → from_error unauthenticated ≡ some wrong_token
      → get_policy p d ≡ (
          if admits token wanted held
          then (d, record no_document { revision = p.revision; payload = p.document }, none)
          else (d, no_document, some unauthenticated))
  unfolding get_policy returned policy_doc serve_policy sentinel_err
  get_policy_lem p d finds =
      ground
        (arith, invoke-guarded from_error token wanted held no_document (serve_policy p) d finds)

  -- Whatever writers and watchers the stub's policy has had, in fewer than 2^64 steps, where gRPC finds
  -- the status in the stub's refusal, and the module's token is admitted: once a watcher waits with no
  -- token, and no writer has yet to wake it, a Get answers without an error, changes nothing, and has
  -- the revision and the document that the watcher has delivered last.
  pub get_policy-watcher :
      {n : ℕ} {p : Policy} (r : PolicyReach n p) (i : ℕ) (w : Slot) (d : HostData)
      → get_elem? p.watchers i ≡ some w
      → n < 2 ^ 64
      → w.stage ≡ Stage.waiting
      → w.token ≡ false
      → owed i p.writers ≡ []
      → from_error unauthenticated ≡ some wrong_token
      → admits token wanted held ≡ true
      → (doc : PolicyDocument) × (get_policy p d ≡ (d, doc, none))
        × EndsIn (doc.revision, doc.payload) w.received
  get_policy-watcher {n} {p} r i w d at small waits spent settled finds admitted = (
    record no_document { revision = p.revision; payload = p.document },
    get_policy_lem p d finds ∙ rw admitted refl,
    watcher_current r i w at small waits spent settled,
  )
