-- ===== src/Election/Tests.antt =====
-- Runs of the election, and its theorems at concrete snapshots.
use platform_rte.Prelude.{ℕ, ◌≡◌, ◌≢◌, ◌↔◌, refl, List, [], ◌∷◌, some, true, false, arith}
use platform_rte.Platform.Status.{ok, elements}
use platform_rte.Dual.Types.{idle, online, cold_standby}
use platform_rte.Election.{
  Candidate, Election, execute, run_round, elect, find_winner_index, find_own_index,
}
use platform_rte.Election.Winner.{Distinct}
use platform_rte.Election.Rounds.{RoundResult, execute_lem, replicas_agree}

abbrev younger : Candidate
younger = record { id = 1; startup_timestamp_ms = 900; degraded = false }

abbrev elder : Candidate
elder = record { id = 2; startup_timestamp_ms = 400; degraded = true }

abbrev replica : ℕ → Election
replica n = record { own_id = n; own_last_state = idle; winner_id = 0; have_winner = false }

abbrev snapshot : List Candidate
snapshot = younger ∷ elder ∷ []

abbrev first_after : Election
first_after = record (replica 1) {
  own_last_state = cold_standby;
  winner_id = 2;
  have_winner = true;
}

abbrev second_after : Election
second_after = record (replica 2) { own_last_state = online; winner_id = 2; have_winner = true }

run_first : execute (some (replica 1)) (elements snapshot) ≡ (ok, some first_after)
unfolding execute run_round elect find_winner_index find_own_index
run_first = refl

run_second : execute (some (replica 2)) (elements snapshot) ≡ (ok, some second_after)
unfolding execute run_round elect find_winner_index find_own_index
run_second = refl

snapshot-Distinct : Distinct snapshot
snapshot-Distinct = ((omega arith, tt), (tt, tt))

execute_lem_example :
    (e : Election) × (execute (some (replica 1)) (elements snapshot) ≡ (ok, some e))
    × RoundResult (replica 1) snapshot e
execute_lem_example = execute_lem (replica 1) snapshot (omega arith) snapshot-Distinct

replicas_agree_example :
    (first_after.winner_id ≡ second_after.winner_id)
    × ((first_after.own_last_state ≡ online) ↔ (first_after.winner_id ≡ 1))
    × ((second_after.own_last_state ≡ online) ↔ (second_after.winner_id ≡ 2))
    × (◌≢◌ {A = ℕ} 1 2 → first_after.own_last_state ≡ online → second_after.own_last_state ≢ online)
replicas_agree_example =
    replicas_agree (replica 1) (replica 2) first_after second_after snapshot snapshot (omega arith)
      (omega arith) snapshot-Distinct snapshot-Distinct (λ c. (λ m. m, λ m. m)) run_first run_second
      (λ e. cc) (λ e. cc)
