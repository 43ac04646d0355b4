-- ===== src/Tests/Metadata.antt =====
-- Keys and values of the fixture's subscription.
use stellabill_contracts.Prelude.{
  ◌≡◌, refl, arith, nat_eq, pair_eq, string_eq, get, set, remove, length,
}
use stellabill_contracts.Host.State.{State, Env}
use stellabill_contracts.Host.Calls.{ok}
use stellabill_contracts.Metadata.{has_key, metadata_keys_of, do_set_metadata, do_delete_metadata}
use stellabill_contracts.Metadata.Keys.{is_distinct}
use stellabill_contracts.Metadata.Indexed.{IsIndexed, Edit, Edits, Edits-IsIndexed}
use stellabill_contracts.Tests.Fixtures.{Ledger, env_at, start, subscriber, merchant}

abbrev env : Env Ledger
env = env_at 1_000_100

start-IsIndexed : IsIndexed start
unfolding IsIndexed metadata_keys_of has_key is_distinct get length
start-IsIndexed id = record { listed = λ key. refl; distinct = refl; bounded = omega arith }

noted : State Ledger
unfolding do_set_metadata
noted = (do_set_metadata env 0 subscriber "invoice" "A-17" start).1

note_runs : do_set_metadata env 0 subscriber "invoice" "A-17" start ≡ (ok tt, noted)
unfolding do_set_metadata noted get set length
note_runs = refl

tagged : State Ledger
unfolding do_set_metadata
tagged = (do_set_metadata env 0 merchant "plan" "gold" noted).1

tag_runs : do_set_metadata env 0 merchant "plan" "gold" noted ≡ (ok tt, tagged)
unfolding do_set_metadata noted tagged get set length
tag_runs = refl

cleared : State Ledger
unfolding do_delete_metadata
cleared = (do_delete_metadata env 0 subscriber "invoice" tagged).1

clear_runs : do_delete_metadata env 0 subscriber "invoice" tagged ≡ (ok tt, cleared)
unfolding do_set_metadata do_delete_metadata noted tagged cleared get set remove length
clear_runs = refl

Edits-IsIndexed_example : IsIndexed cleared
Edits-IsIndexed_example =
    Edits-IsIndexed start cleared
      (Edits.then (Edit.written env 0 subscriber "invoice" "A-17" note_runs) (
        Edits.then (Edit.written env 0 merchant "plan" "gold" tag_runs)
          (Edits.then (Edit.erased env 0 subscriber "invoice" clear_runs) Edits.done)))
      start-IsIndexed
