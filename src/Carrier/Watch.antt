-- ===== src/Carrier/Watch.antt =====
-- One tick of `StartCarrierWatch`, which daemon/grpcwire/carrier.go and daemon/vxlan/carrier.go
-- share: sample every tracked interface, take the edges that are due, and drop the echoes.
use meshnet_cni.Prelude.{ℕ, Bool, Option, none, some, List, [], ◌∷◌, if◌then◌else◌, nat_eq}
use meshnet_cni.Prelude.Assoc.{Assoc}
use meshnet_cni.Carrier.{Debouncer, Edge, observe, due, consume_echo}

-- The readings of a round, `none` where the operational state could not be read.
unfoldable pub sample_all : Debouncer → List (ℕ × Option Bool) → ℕ → Debouncer
sample_all d [] now = d
sample_all d ((k, none) ∷ rest) now = sample_all d rest now
sample_all d ((k, some up) ∷ rest) now = sample_all (observe d k up now) rest now

-- The edges that are sent to the peers, and the table of echoes that is left.
unfoldable pub propagate : List Edge → Assoc ℕ Bool → List Edge × Assoc ℕ Bool
unfolding consume_echo
propagate [] t = ([], t)
propagate (e ∷ es) t =
    let (echo, t') = consume_echo e.key e.up t in
    let (sent, t'') = propagate es t' in (if echo then sent else e ∷ sent, t'')

unfoldable pub tick :
    Debouncer → Assoc ℕ Bool → List (ℕ × Option Bool) → ℕ → Debouncer × List Edge × Assoc ℕ Bool
tick d t readings now =
    let (d', edges) = due (sample_all d readings now) now in
    let (sent, t') = propagate edges t in (d', sent, t')
