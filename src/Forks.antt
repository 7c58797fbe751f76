-- ===== src/Forks.antt =====
-- ethereum-consensus/src/fork.rs, and the choice of a fork in state_transition/context.rs.
pub mod Order
use ethereum_consensus.Prelude.{leb, if◌then◌else◌}
use ethereum_consensus.Types.{Slot, Epoch, Version, Context}
use ethereum_consensus.Outcome.{Outcome, ok, div, ◌>>=◌}

pub data Fork : Type 0 where
  phase0 altair bellatrix capella deneb : Fork

-- The chain of tests, from the latest fork on.
unfoldable pub fork_at : Epoch → Context → Fork
fork_at epoch context =
    if leb context.deneb_fork_epoch epoch
    then deneb
    else (if leb context.capella_fork_epoch epoch
        then capella
        else (if leb context.bellatrix_fork_epoch epoch
            then bellatrix
            else (if leb context.altair_fork_epoch epoch then altair else phase0)))

unfoldable pub fork_for : Slot → Context → Outcome Fork
fork_for slot context = do epoch ← div slot context.slots_per_epoch; ok (fork_at epoch context)

unfoldable pub fork_version_for : Fork → Context → Version
fork_version_for phase0 context = context.genesis_fork_version
fork_version_for altair context = context.altair_fork_version
fork_version_for bellatrix context = context.bellatrix_fork_version
fork_version_for capella context = context.capella_fork_version
fork_version_for deneb context = context.deneb_fork_version
