-- ===== src/SiteRole/Takeover.antt =====
-- rte_site_role.c: the confirmation of a takeover by the dispatcher, plain or by a token.
pub mod Tokens
use platform_rte.Prelude.{
  ℕ, ◌-◌, ◌%◌, ◌^◌, List, Option, none, some, Bool, true, false, not, ◌&&◌, ◌||◌, ltb, leb, ◌==◌,
  if◌then◌else◌, length, get_or, take, drop,
}
use platform_rte.Buffer.{value_of, le}
use platform_rte.SiteRole.Types.{
  SiteRole, TokenResult, accepted, ignored_online, not_configured, no_challenge, bad_format,
  bad_mac, stale_challenge, token_msg_len, token_len, token_version,
  challenge_lifetime_default_cycles,
}

-- `read_u32_le` of the bytes from an offset.
unfoldable pub read_u32_le : List ℕ → ℕ → ℕ
read_u32_le bytes offset = value_of le (take 4 (drop offset bytes))

unfoldable pub challenge_lifetime : SiteRole → ℕ
challenge_lifetime rs =
    if rs.cfg.challenge_lifetime_cycles == 0
    then challenge_lifetime_default_cycles
    else rs.cfg.challenge_lifetime_cycles

-- `draw_challenge`, with the random bytes, or `none` if the draw fails.
unfoldable pub draw_challenge : SiteRole → ℕ → Option (List ℕ) → SiteRole
unfolding read_u32_le
draw_challenge rs cycle none = record rs {
  challenge_cycle = cycle;
  challenge_valid = false;
  challenge_fail_reported = true;
}
draw_challenge rs cycle (some bytes) = record rs {
  challenge_cycle = cycle;
  challenge = read_u32_le bytes 0;
  challenge_valid = true;
  challenge_fail_reported = false;
}

abbrev pub is_some {ℓ} : {A : Type ℓ} → Option A → Bool
is_some none = false
is_some (some a) = true

-- `refresh_challenge`; the subtraction runs only where the first number is the larger.
unfoldable pub refresh_challenge : SiteRole → ℕ → Option (List ℕ) → SiteRole
unfolding draw_challenge challenge_lifetime
refresh_challenge rs cycle random =
    if not (is_some rs.cfg.verify_mac)
    then rs
    else if not rs.challenge_valid
        || (ltb cycle rs.challenge_cycle
            || leb (challenge_lifetime rs) (cycle - rs.challenge_cycle))
    then draw_challenge rs cycle random
    else rs

-- `record_takeover_confirmation`
unfoldable pub record_takeover_confirmation : SiteRole → ℕ → SiteRole
record_takeover_confirmation rs cycle = record rs {
  takeover_confirmed = true;
  takeover_confirm_cycle = cycle;
}

-- The length and the fields of a token for this channel; bytes out of range are not read.
unfoldable pub well_formed : SiteRole → List ℕ → Bool
unfolding read_u32_le
well_formed rs token =
    length token == token_len
    && (get_or token 0 0 == token_version
        && (get_or token 1 0 == rs.cfg.own_id % 2 ^ 8
            && (get_or token 2 0 == rs.cfg.channel_id
                && (get_or token 3 0 == 0 && read_u32_le token 12 == 0))))

-- The `if` ladder of `check_token` once there is a verifier.
unfoldable pub check_token_with :
    SiteRole → (List ℕ → List ℕ → Bool) → Option (List ℕ) → TokenResult
unfolding well_formed read_u32_le
check_token_with rs verify none = bad_format
check_token_with rs verify (some token) =
    if not (well_formed rs token)
    then bad_format
    else if not rs.challenge_valid
    then no_challenge
    else if not (verify (take token_msg_len token) (drop token_msg_len token))
    then bad_mac
    else if not (read_u32_le token 4 == rs.challenge)
    then stale_challenge
    else accepted

-- `check_token`; a token of `none` is NULL.
unfoldable pub check_token : SiteRole → Option (List ℕ) → TokenResult
unfolding check_token_with
check_token rs token = elim rs.cfg.verify_mac [
  | none ↦ not_configured
  | some verify ↦ check_token_with rs verify token
]

abbrev pub is_accepted : TokenResult → Bool
is_accepted accepted = true
is_accepted _ = false

-- `rte_site_role_on_takeover_confirm` with a service.
unfoldable pub on_takeover_confirm : SiteRole → ℕ → SiteRole
unfolding record_takeover_confirmation
on_takeover_confirm rs cycle =
    if is_some rs.cfg.verify_mac
    then rs
    else if rs.online
    then rs
    else record_takeover_confirmation rs cycle

-- `rte_site_role_on_takeover_token` with a service, and the random bytes of the draw after it.
unfoldable pub on_takeover_token :
    SiteRole → ℕ → Option (List ℕ) → Option (List ℕ) → TokenResult × SiteRole
unfolding check_token record_takeover_confirmation draw_challenge
on_takeover_token rs cycle token random =
    let result = check_token rs token in
    if is_some rs.cfg.verify_mac && rs.online
    then (ignored_online, rs)
    else if is_accepted result
    then (result, draw_challenge (record_takeover_confirmation rs cycle) cycle random)
    else (result, rs)

-- `rte_site_role_takeover_challenge` with a service and a place for the result.
unfoldable pub takeover_challenge : SiteRole → Option ℕ
takeover_challenge rs = if rs.challenge_valid then some rs.challenge else none
