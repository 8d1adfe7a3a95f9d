-- ===== src/SiteRole/Cycle/Contact.antt =====
-- When the service gives the link up (REQ-SITEROLE-013).
use platform_rte.Prelude.{
  ℕ, ◌+◌, ◌≤◌, ◌<◌, ◌≡◌, refl, sym, ap, subst, ◌∙◌, List, [], ◌∷◌, Bool, true, false, arith, All,
  ltb, if◌then◌else◌, if_true, length,
}
use platform_rte.Platform.Status.{Status, is_ok, timeout}
use platform_rte.Dual.Negotiator.{Round}
use platform_rte.SiteRole.Types.{SiteRole, Config, Local, Traffic, Event}
use platform_rte.SiteRole.Link.{handle_send_miss_and_link_teardown}
use platform_rte.SiteRole.Frames.{
  receive_frame, update_standby_warmth, send_frame, decode_frame, take_payload,
}
use platform_rte.SiteRole.Cycle.{execute, exchange, begin_cycle, run_negotiator, decide_and_check}
use platform_rte.SiteRole.Cycle.Runs.{Call, run, decide_and_check-IsUnmoved}
use platform_rte.SiteRole.Cycle.Causes.{heard}

-- A cycle whose frame is not acknowledged and that receives nothing.
abbrev pub IsSilent : Call → Type 0
IsSilent c = (is_ok c.traffic.send_status ≡ false) × (c.traffic.arrival.0 ≡ timeout)

-- The link after a number of misses.
abbrev pub LinkAfter : ℕ → ℕ → SiteRole → Type 0
LinkAfter threshold misses rs =
    (rs.cfg.send_miss_threshold ≡ threshold)
    × (rs.link_up ≡ ltb misses threshold)
    × (rs.send_miss ≡ (if ltb misses threshold then misses else 0))

teardown_silent :
    (rs : SiteRole) (threshold misses : ℕ) (send_ok : Bool) (status : Status)
    → rs.cfg.send_miss_threshold ≡ threshold
    → rs.link_up ≡ true
    → rs.send_miss ≡ misses
    → misses < threshold
    → threshold ≤ 255
    → send_ok ≡ false
    → status ≡ timeout
    → LinkAfter threshold (misses + 1) (handle_send_miss_and_link_teardown rs send_ok status).0
unfolding handle_send_miss_and_link_teardown
teardown_silent rs threshold misses send_ok status at up count below small missed quiet =
    ground arith

-- The fields of the link are as they were.
record SameLink (rs rs' : SiteRole) : Type 0 where
  link : rs'.link_up ≡ rs.link_up
  misses : rs'.send_miss ≡ rs.send_miss
  config : rs'.cfg ≡ rs.cfg

begin_cycle-SameLink :
    (rs : SiteRole) (cycle : ℕ) (l : Local) (t : Traffic) → SameLink rs (begin_cycle rs cycle l t)
unfolding begin_cycle
begin_cycle-SameLink rs cycle l t = ground arith

run_negotiator-SameLink : (rs : SiteRole) (r : Round) → SameLink rs (run_negotiator rs r)
run_negotiator-SameLink rs r = ground arith

heard-SameLink : (rs : SiteRole) (t : Traffic) → SameLink rs (heard rs t)
unfolding receive_frame update_standby_warmth decode_frame take_payload
heard-SameLink rs t = ground arith

decided-SameLink : (rs : SiteRole) (l : Local) → SameLink rs (decide_and_check rs l).0
decided-SameLink rs l =
    let u = decide_and_check-IsUnmoved rs l in
    record { link = u.link; misses = u.misses; config = u.config }

SameLink-trans : (x y z : SiteRole) → SameLink x y → SameLink y z → SameLink x z
SameLink-trans x y z a b = record {
  link = b.link ∙ a.link;
  misses = b.misses ∙ a.misses;
  config = b.config ∙ a.config;
}

-- The service at the end of a cycle on an open link, where it looks at the link.
at_end : SiteRole → Call → SiteRole
at_end rs c =
    let x = run_negotiator (begin_cycle rs c.cycle c.local c.traffic) c.traffic.round in
    (decide_and_check (heard x c.traffic) c.local).0

at_end-SameLink : (rs : SiteRole) (c : Call) → SameLink rs (at_end rs c)
unfolding at_end
at_end-SameLink rs c =
    let t = c.traffic in
    let ready = begin_cycle rs c.cycle c.local t in
    let x = run_negotiator ready t.round in
    SameLink-trans rs ready (at_end rs c) (begin_cycle-SameLink rs c.cycle c.local t) (
      SameLink-trans ready x (at_end rs c) (run_negotiator-SameLink ready t.round) (
        SameLink-trans x (heard x t) (at_end rs c) (heard-SameLink x t)
          (decided-SameLink (heard x t) c.local)))

execute_end :
    (rs : SiteRole) (c : Call)
    → rs.link_up ≡ true
    → (execute rs c.cycle c.local c.traffic).0
      ≡ (handle_send_miss_and_link_teardown
          (at_end rs c)
          (is_ok c.traffic.send_status)
          c.traffic.arrival.0).0
unfolding execute exchange at_end send_frame receive_frame
execute_end rs c up =
    ap (λ (o : SiteRole × List Event). o.0)
      (if_true (begin_cycle rs c.cycle c.local c.traffic).link_up _ _
        ((begin_cycle-SameLink rs c.cycle c.local c.traffic).link ∙ up))

-- A silent cycle on an open link counts one miss, and closes the link at the threshold.
execute_silent :
    (rs : SiteRole) (c : Call) (threshold misses : ℕ)
    → rs.cfg.send_miss_threshold ≡ threshold
    → rs.link_up ≡ true
    → rs.send_miss ≡ misses
    → misses < threshold
    → threshold ≤ 255
    → IsSilent c
    → LinkAfter threshold (misses + 1) (execute rs c.cycle c.local c.traffic).0
execute_silent rs c threshold misses at up count below small quiet =
    let s = at_end-SameLink rs c in
    subst (LinkAfter threshold (misses + 1)) (sym (execute_end rs c up)) (
      teardown_silent (at_end rs c) threshold misses (is_ok c.traffic.send_status)
        c.traffic.arrival.0 (ap (λ (k : Config). k.send_miss_threshold) s.config ∙ at) (s.link ∙ up)
        (s.misses ∙ count) below small quiet.0 quiet.1)

fewer : (m n : ℕ) → m < n → ltb m n ≡ true
fewer m n h = ground arith

run_silent :
    (rs : SiteRole) (calls : List Call) (threshold misses : ℕ)
    → rs.cfg.send_miss_threshold ≡ threshold
    → rs.link_up ≡ true
    → rs.send_miss ≡ misses
    → misses < threshold
    → threshold ≤ 255
    → All IsSilent calls
    → misses + length calls ≤ threshold
    → LinkAfter threshold (misses + length calls) (run rs calls)
unfolding run
run_silent rs [] threshold misses at up count below small quiet few = ground arith
run_silent rs (c ∷ []) threshold misses at up count below small quiet few =
    execute_silent rs c threshold misses at up count below small quiet.0
run_silent rs (c ∷ d ∷ cs) threshold misses at up count below small quiet few =
    let rs' = (execute rs c.cycle c.local c.traffic).0 in
    let (at', up', count') = execute_silent rs c threshold misses at up count below small quiet.0 in
    let lower : misses + 1 < threshold = omega arith in
    let more : ltb (misses + 1) threshold ≡ true = fewer (misses + 1) threshold lower in
    let count'' : rs'.send_miss ≡ misses + 1 =
      count' ∙ if_true (ltb (misses + 1) threshold) (misses + 1) 0 more in
    subst (λ (m : ℕ). LinkAfter threshold m (run rs' (d ∷ cs))) (omega arith)
      (run_silent rs' (d ∷ cs) threshold (misses + 1) at' (up' ∙ more) count'' lower small quiet.1
        (omega arith))

-- Over a run of silent cycles on an open link the misses add up: the link is open while they are fewer
-- than the threshold, and the cycle that reaches the threshold closes it and clears the count.
pub silent_link_closes :
    (rs : SiteRole) (calls : List Call)
    → rs.link_up ≡ true
    → rs.send_miss < rs.cfg.send_miss_threshold
    → rs.cfg.send_miss_threshold ≤ 255
    → All IsSilent calls
    → rs.send_miss + length calls ≤ rs.cfg.send_miss_threshold
    → LinkAfter rs.cfg.send_miss_threshold (rs.send_miss + length calls) (run rs calls)
silent_link_closes rs calls up below small quiet few =
    run_silent rs calls rs.cfg.send_miss_threshold rs.send_miss refl up refl below small quiet few
