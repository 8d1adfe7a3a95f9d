-- ===== src/SiteRole/Cycle/Tests.antt =====
-- The service at concrete sites, and the theorems about it applied there.
use platform_rte.Prelude.{
  ℕ, ◌≡◌, refl, inr, List, [], ◌∷◌, Option, none, some, Bool, true, false, arith, ◌==◌,
  if◌then◌else◌, replicate, get_or,
}
use platform_rte.Platform.Status.{Status, ok, timeout}
use platform_rte.Dual.Types.{full}
use platform_rte.Buffer.{read, value_of}
use platform_rte.SiteRole.Policy.{decide, standby_data_stale}
use platform_rte.SiteRole.Types.{SiteRole, Config, Local, Traffic, Sibling, Event, accepted}
use platform_rte.SiteRole.Takeover.{on_takeover_token, read_u32_le}
use platform_rte.SiteRole.Takeover.Tokens.{TokenFate, on_takeover_token_lem, token_single_use}
use platform_rte.SiteRole.Frames.{encode_frame, receive_frame}
use platform_rte.SiteRole.Frames.Exchange.{Heard, encode_frame-receive_frame}
use platform_rte.SiteRole.Link.{open_link_blocking}
use platform_rte.SiteRole.Cycle
use platform_rte.SiteRole.Cycle.{initial, start, Start}
use platform_rte.SiteRole.Cycle.Causes.Conditions.{OnlineCause}
use platform_rte.SiteRole.Cycle.Causes.Known.{execute-OnlineCause}
use platform_rte.SiteRole.Cycle.Runs.{Call, run}
use platform_rte.SiteRole.Cycle.Partition.{IsStranded, stays_standby}
use platform_rte.SiteRole.Cycle.Contact.{LinkAfter, silent_link_closes}
use platform_rte.SiteRole.Cycle.Startup.{start_returns}
use platform_rte.SiteRole.Cycle.Resume.{start_resumes}

check_mac : List ℕ → List ℕ → Bool
check_mac msg mac = get_or mac 0 0 == 9

abbrev config : Config
config = record {
  own_id = 1;
  peer_id = 2;
  is_west = true;
  listen = false;
  has_peer_host = true;
  peer_lost_timeout_ms = 1000;
  startup_timeout_ms = 20;
  link_poll_ms = 10;
  connect_retry_ms = 10;
  send_miss_threshold = 3;
  standby_sync = true;
  startup_timestamp_ms = 50;
  frame_size = 9;
  has_buffers = true;
  has_tags = true;
  has_callbacks = true;
  verify_mac = some check_mac;
  channel_id = 0;
  challenge_lifetime_cycles = 0;
  has_sibling_source = false;
  sibling_reach_cycles = 0;
}

abbrev site : SiteRole
site = initial config (replicate 9 0)

abbrev local : Local
local = record {
  faulted = false;
  single_mode = true;
  own_ready = true;
  sibling_online = false;
  sibling_ready = false;
  sibling_reachable = false;
}

-- The frame of a FAULTED counterpart, with no state to offer.
abbrev faulted_frame : List ℕ
faulted_frame = 1 ∷ 0 ∷ 0 ∷ 0 ∷ 0 ∷ 0 ∷ 0 ∷ 0 ∷ 0 ∷ []

abbrev traffic : Status → Status × List ℕ → Traffic
traffic opening arrival = record {
  sibling_frame = none;
  random = none;
  open_status = opening;
  channel_status = ok;
  clock = 60;
  round = record { status = full; arrivals = []; clock = 60 };
  encode_state = λ live. 4 ∷ 5 ∷ [];
  send_status = timeout;
  arrival = arrival;
  receive_state = λ bytes valid. true;
}

-- The challenge 7, and a token that answers it.
abbrev challenged : SiteRole
challenged = record site { challenge_valid = true; challenge = 7 }

abbrev token : List ℕ
token = 1 ∷ 1 ∷ 0 ∷ 0 ∷ 7 ∷ 0 ∷ 0 ∷ 0 ∷ 2 ∷ 0 ∷ 0 ∷ 0 ∷ 0 ∷ 0 ∷ 0 ∷ 0 ∷ 9 ∷ replicate 7 0

token_accepted :
    (on_takeover_token challenged 5 (some token) (some (8 ∷ 0 ∷ 0 ∷ 0 ∷ []))).0 ≡ accepted
unfolding on_takeover_token initial check_mac value_of
token_accepted = refl

on_takeover_token_lem_example :
    TokenFate challenged check_mac 5 token
      (some (8 ∷ 0 ∷ 0 ∷ 0 ∷ []))
      (on_takeover_token challenged 5 (some token) (some (8 ∷ 0 ∷ 0 ∷ 0 ∷ [])))
unfolding initial
on_takeover_token_lem_example =
    on_takeover_token_lem challenged 5 check_mac token (some (8 ∷ 0 ∷ 0 ∷ 0 ∷ [])) refl

-- The same challenge is drawn again, so that the token passes twice.
token_single_use_example :
    (bytes : List ℕ) × ((◌≡◌ {A = Option (List ℕ)} (some (7 ∷ 0 ∷ 0 ∷ 0 ∷ [])) (some bytes)))
    × (read_u32_le bytes 0 ≡ challenged.challenge)
unfolding on_takeover_token initial check_mac value_of
token_single_use_example =
    token_single_use challenged 5 6 check_mac token (some (7 ∷ 0 ∷ 0 ∷ 0 ∷ [])) none refl refl refl

-- WEST, ONLINE, sends its frame of cycle 40 to a site of the same frame size.
abbrev sender : SiteRole
sender = record site { online = true; cycle = 40 }

encode_frame-receive_frame_example :
    let bytes = encode_frame config false false 40 true (λ live. 4 ∷ 5 ∷ []) in
    ((receive_frame site (ok, bytes) (λ state valid. true)).0 ≡ ok)
    × Heard site bytes false false 40 true (receive_frame site (ok, bytes) (λ state valid. true)).1
unfolding initial encode_frame
encode_frame-receive_frame_example =
    encode_frame-receive_frame sender site (λ live. 4 ∷ 5 ∷ []) (λ state valid. true) refl
      (omega arith) (omega arith) refl refl

-- The counterpart reports FAULTED on an open link.
abbrev linked : SiteRole
linked = record site { link_up = true }

execute-OnlineCause_example : OnlineCause linked 9 local (traffic ok (ok, faulted_frame))
unfolding initial Cycle.execute decide read standby_data_stale
execute-OnlineCause_example =
    execute-OnlineCause linked 9 local (traffic ok (ok, faulted_frame)) refl refl

cut_off : ℕ → Call
cut_off n = record { cycle = n; local = local; traffic = traffic timeout (timeout, []) }

stays_standby_example : IsStranded (run site (cut_off 1 ∷ cut_off 2 ∷ []))
unfolding initial cut_off
stays_standby_example =
    stays_standby site (cut_off 1 ∷ cut_off 2 ∷ [])
      (record {
        standby = refl;
        down = refl;
        peer_sound = refl;
        unconfirmed = refl;
        sourceless = refl;
      })
      ((refl, refl), ((refl, refl), tt))

-- Three silent cycles close the link, and two do not.
silent_link_closes_example : LinkAfter 3 3 (run linked (cut_off 1 ∷ cut_off 2 ∷ cut_off 3 ∷ []))
unfolding initial cut_off
silent_link_closes_example =
    silent_link_closes linked (cut_off 1 ∷ cut_off 2 ∷ cut_off 3 ∷ []) refl (omega arith)
      (omega arith) ((refl, refl), ((refl, refl), ((refl, refl), tt))) (omega arith)

-- The second attempt to connect succeeds, and the counterpart is never heard.
abbrev startup : Start
startup = record {
  now = 60;
  sibling_frame = none;
  attempts = λ i. if i == 1 then ok else timeout;
  channel_status = ok;
  clock = 60;
  rounds = λ i. record { status = full; arrivals = []; clock = 60 };
}

start_returns_example : (o : Status × SiteRole × List Event) × (start 21 site startup ≡ some o)
unfolding initial
start_returns_example =
    start_returns 21 site startup
      (record {
        connects = inr (omega arith, omega arith);
        polls = omega arith;
        poll_fits = omega arith;
      })
      (omega arith)

abbrev sibling : Sibling
sibling = record { known = true; online = true; single_mode = false; ready = true }

abbrev paired : SiteRole
paired = initial (record config { has_sibling_source = true }) (replicate 9 0)

start_resumes_example :
    (rs' : SiteRole) × (start 21 paired (record startup { sibling_frame = some sibling })
      ≡ some (ok, rs', []))
    × (rs'.online ≡ true)
unfolding initial open_link_blocking
start_resumes_example =
    start_resumes 20 paired (record startup { sibling_frame = some sibling }) sibling refl refl refl
      refl refl
