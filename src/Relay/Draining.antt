-- ===== src/Relay/Draining.antt =====
-- modulesdk/hostclient.go: the goroutine of a channel can hand over all that has come.
use weaveplatform_sdk.Base.{ℕ, suc, ◌≡◌, refl, List, [], ◌∷◌}
use weaveplatform_sdk.Relay.{Place, Relay, Run}
use weaveplatform_sdk.Relay.Ending.{Runs}

module _ {A B : Type 0} (convert : A → B) where
  -- What steps of the goroutine and the module lead to.
  pub record Drained (r : Relay A B) : Type 0 where
    pub count : ℕ
    pub state : Relay A B
    pub runs : Runs convert count r state
    pub none_comes : state.wire ≡ []
    pub receives : state.place ≡ Place.receiving

  pub drain : (l : List A) (r : Relay A B) → r.wire ≡ l → r.place ≡ Place.receiving → Drained r
  drain [] r at place = record {
    count = 0;
    state = r;
    runs = Runs.stay;
    none_comes = at;
    receives = place;
  }
  drain (a ∷ rest) r at place =
      let next = drain rest _ refl refl in
      record {
        count = suc (suc next.count);
        state = next.state;
        runs =
            Runs.step (Run.recv {a = a} {rest = rest} place at)
              (Runs.step (Run.hand_over {a = a} refl) next.runs);
        none_comes = next.none_comes;
        receives = next.receives;
      }
