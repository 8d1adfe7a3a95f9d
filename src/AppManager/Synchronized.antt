-- ===== src/AppManager/Synchronized.antt =====
-- The checkpoint stage of rte_appmanager_run with rte_channel_checkpoint in it: the application manager over
-- the rendezvous of the channels.
use platform_rte.Prelude.{
  ℕ, ◌≤◌, ◌≡◌, ◌⊎◌, inl, inr, refl, sym, subst, List, [], Option, none, some, true,
}
use platform_rte.Platform.Status.{Status, ok}
use platform_rte.Platform.Safestate.{Platform, Outcome}
use platform_rte.Channel.{Transport}
use platform_rte.Voter.Types.{Voter, channel_count, max_channels}
use platform_rte.Watchdog.{Reading}
use platform_rte.Checkpoint.{CheckpointConfig, Site}
use platform_rte.Checkpoint.Rounds.{channel_checkpoint}
use platform_rte.Checkpoint.Fate.Ends.{checkpoint_meets, meet_at_result}
use platform_rte.AppManager.{AppCall}
use platform_rte.AppManager.Cycle.{Callback, Rendezvous}

module _ {W : Type 0} (bytes_of : ℕ → ℕ → List ℕ) (value_of : List ℕ → ℕ) (t : Transport W)
    (clock : W → Reading × W) (platform : Platform) where
  abbrev as_callback : Outcome Unit (Site W) Status → Option (Status × Site W × List AppCall)
  as_callback o = elim o.result [ none ↦ none | some status ↦ some (status, o.state, []) ]

  -- The fields of `rte_appmanager_checkpoint_config_t` but for the id, which each cycle gives.
  unfoldable pub meet_with : Voter → CheckpointConfig → ℕ → Callback (Site W)
  meet_with voter config id s = as_callback (
      channel_checkpoint bytes_of value_of t clock platform (some voter)
        (some (record config { checkpoint_id = id })) s)

  -- The checkpoint of an application whose voter is there.
  unfoldable pub synchronized : Voter → CheckpointConfig → Rendezvous (Site W)
  unfolding meet_with
  synchronized voter config = record { has_voter = λ s. true; meet = meet_with voter config }

-- With the checksum module initialised and an expected count that the voter can meet, the checkpoint stage
-- either succeeds or never comes back: the application is never told to discard its outputs.
pub meet_succeeds :
    {W : Type 0} (bytes_of : ℕ → ℕ → List ℕ) (value_of : List ℕ → ℕ) (t : Transport W)
    (clock : W → Reading × W) (platform : Platform) (voter : Voter) (config : CheckpointConfig)
    (id : ℕ) (s : Site W)
    → channel_count voter ≤ max_channels
    → s.checksum.initialized ≡ true
    → 1 ≤ config.expected_node_count
    → config.expected_node_count ≤ channel_count voter
    → ((synchronized bytes_of value_of t clock platform voter config).meet id s ≡ none)
      ⊎ ((s' : Site W) × ((synchronized bytes_of value_of t clock platform voter config).meet id s
            ≡ some (ok, s', [])))
unfolding synchronized meet_with
meet_succeeds bytes_of value_of t clock platform voter config id s l i low high =
    let at = record config { checkpoint_id = id } in
    let (msg, met) = checkpoint_meets bytes_of value_of t clock platform voter at s i low high in
    let o = channel_checkpoint bytes_of value_of t clock platform (some voter) (some at) s in
    let result : (o.result ≡ some ok) ⊎ (o.result ≡ none) =
      subst (λ (r : Outcome Unit (Site _) Status). (r.result ≡ some ok) ⊎ (r.result ≡ none))
        (sym met) (meet_at_result bytes_of value_of t clock platform voter.channels at msg _ _) in
    elim result [ inl r ↦ inr (o.state, rw r refl) | inr r ↦ inl (rw r refl) ]
