-- ===== src/Bellatrix/InStep.antt =====
-- The lists of a bellatrix state that have an entry for each validator, and how an action of altair
-- keeps them in step.
use ethereum_consensus.Types.Altair as Altair
use ethereum_consensus.Types.Bellatrix.{BeaconState}
use ethereum_consensus.Action.{StateAction}
use ethereum_consensus.Action.Keeps.{Keeps, Ensures}
use ethereum_consensus.Shape.{Shape}
use ethereum_consensus.Altair.Consistent.{IsConsistent}
use ethereum_consensus.Bellatrix.Shared.{with_common, on_common}

-- The lists of the part that bellatrix shares with altair are in step.
abbrev pub IsInStep : Shape → BeaconState → Type 0
IsInStep k s = IsConsistent k s.common

pub on_common-IsInStep :
    {k : Shape} {A : Type 0} {m : StateAction Altair.BeaconState A}
    → Keeps (IsConsistent k) m
    → Keeps (IsInStep k) (on_common m)
unfolding on_common with_common
on_common-IsInStep kept = record { at = λ s h. kept.at s.common h }

pub on_common-Ensures :
    {k l : Shape} {A : Type 0} {m : StateAction Altair.BeaconState A}
    → Ensures (IsConsistent k) (IsConsistent l) m
    → Ensures (IsInStep k) (IsInStep l) (on_common m)
unfolding on_common with_common
on_common-Ensures ensured = record { at = λ s h a e. ensured.at s.common h a e }
