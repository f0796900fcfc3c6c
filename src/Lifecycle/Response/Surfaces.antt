-- ===== src/Lifecycle/Response/Surfaces.antt =====
-- modulesdk/hostclient.go: the surfaces that the callbacks of a module declare before its jobs start.
use mathlib.Core.List.{flatten, append-nil, append_assoc}
use weaveplatform_sdk.Base.{◌≡◌, refl, sym, ap, ◌∙◌, false, List, [], ◌∷◌, ◌++◌, none}
use weaveplatform_sdk.HostClient.{HostClient, Surface, declare, declared_surfaces}
use weaveplatform_sdk.Lifecycle.{declare_all}

pub map_same : (xs : List Surface) (h : HostClient) → h.surfaces ≡ xs → declared_surfaces h ≡ xs
unfolding declared_surfaces
map_same [] h e = rw e
map_same (x ∷ xs) h e = rw e (ap (◌∷◌ x) (map_same xs (record h { surfaces = xs }) refl))

pub declare_early :
    (xs : List Surface) (h : HostClient)
    → h.started ≡ false
    → declare xs h ≡ (record h { surfaces = h.surfaces ++ xs }, none)
unfolding declare
declare_early xs h e = rw e refl

-- What a callback declares on a client whose jobs have not started is kept, in order.
pub declare_all-surfaces :
    (xss : List (List Surface)) (h : HostClient)
    → h.started ≡ false
    → declare_all xss h ≡ record h { surfaces = h.surfaces ++ flatten xss }
unfolding declare_all flatten
declare_all-surfaces [] h e = ap (λ xs. record h { surfaces = xs }) (sym (append-nil h.surfaces))
declare_all-surfaces (xs ∷ xss) h e =
    ap (λ r. declare_all xss r.0) (declare_early xs h e)
    ∙ declare_all-surfaces xss (record h { surfaces = h.surfaces ++ xs }) e
    ∙ ap (λ ys. record h { surfaces = ys }) (append_assoc h.surfaces xs (flatten xss))
