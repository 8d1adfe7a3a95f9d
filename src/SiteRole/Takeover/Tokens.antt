-- ===== src/SiteRole/Takeover/Tokens.antt =====
-- Which token of the dispatcher is accepted, and that it is accepted once.
use platform_rte.Prelude.{
  ℕ, ◌%◌, ◌^◌, ◌≡◌, ◌≢◌, refl, sym, subst, ◌∙◌, ◌⊎◌, inl, inr, List, Option, none, some, Bool, true,
  false, length, get_or, take, drop, arith, Bool-cases,
}
use platform_rte.Buffer.{value_of, le}
use platform_rte.SiteRole.Types.{SiteRole, TokenResult, accepted}
use platform_rte.SiteRole.Takeover.{
  read_u32_le, well_formed, check_token, check_token_with, on_takeover_token, draw_challenge,
  record_takeover_confirmation,
}

-- The four bytes from an offset as an integer, the low byte first.
abbrev le32 : List ℕ → ℕ → ℕ
le32 bytes offset = value_of le (take 4 (drop offset bytes))

-- A token for this channel that answers the challenge it holds and that the verifier accepts.
pub record IsAuthentic (rs : SiteRole) (verify : List ℕ → List ℕ → Bool) (token : List ℕ)
    : Type 0 where
  pub sized : length token ≡ 24
  pub versioned : get_or token 0 0 ≡ 1
  pub for_site : get_or token 1 0 ≡ rs.cfg.own_id % 2 ^ 8
  pub for_channel : get_or token 2 0 ≡ rs.cfg.channel_id
  pub reserved : get_or token 3 0 ≡ 0
  pub padded : le32 token 12 ≡ 0
  pub held : rs.challenge_valid ≡ true
  pub answers : le32 token 4 ≡ rs.challenge
  pub signed : verify (take 16 token) (drop 16 token) ≡ true

check_token-IsAuthentic :
    (rs : SiteRole) (verify : List ℕ → List ℕ → Bool) (token : List ℕ)
    → check_token_with rs verify (some token) ≡ accepted
    → IsAuthentic rs verify token
unfolding check_token_with well_formed read_u32_le
check_token-IsAuthentic rs verify token h = ground arith

IsAuthentic-check_token :
    (rs : SiteRole) (verify : List ℕ → List ℕ → Bool) (token : List ℕ)
    → IsAuthentic rs verify token
    → check_token_with rs verify (some token) ≡ accepted
unfolding check_token_with well_formed read_u32_le
IsAuthentic-check_token rs verify token h = ground arith

-- The service with a confirmation from this cycle, and the challenge of these random bytes, or none if
-- the draw failed; all else is as it was.
abbrev pub confirmed : SiteRole → ℕ → Option (List ℕ) → SiteRole
confirmed rs cycle none = record rs {
  takeover_confirmed = true;
  takeover_confirm_cycle = cycle;
  challenge_cycle = cycle;
  challenge_valid = false;
  challenge_fail_reported = true;
}
confirmed rs cycle (some bytes) = record rs {
  takeover_confirmed = true;
  takeover_confirm_cycle = cycle;
  challenge_cycle = cycle;
  challenge = le32 bytes 0;
  challenge_valid = true;
  challenge_fail_reported = false;
}

confirmed_lem :
    (rs : SiteRole) (cycle : ℕ) (random : Option (List ℕ))
    → draw_challenge (record_takeover_confirmation rs cycle) cycle random
      ≡ confirmed rs cycle random
unfolding draw_challenge record_takeover_confirmation read_u32_le
confirmed_lem rs cycle none = refl
confirmed_lem rs cycle (some bytes) = refl

-- What a token does. Either the channel is STANDBY and the token authentic: it is accepted, the
-- confirmation stands from this cycle on, and the challenge is drawn anew; or the channel is ONLINE or
-- the token is not authentic: it is not accepted and changes nothing.
abbrev pub TokenFate :
    SiteRole
    → (List ℕ → List ℕ → Bool)
    → ℕ
    → List ℕ
    → Option (List ℕ)
    → TokenResult × SiteRole
    → Type 0
TokenFate rs verify cycle token random (result, rs') =
    ((rs.online ≡ false)
      × IsAuthentic rs verify token
      × (result ≡ accepted)
      × (rs' ≡ confirmed rs cycle random))
    ⊎ (((rs.online ≡ true) ⊎ (¬ IsAuthentic rs verify token)) × (result ≢ accepted) × (rs' ≡ rs))

accepted_or_not : (r : TokenResult) → (r ≡ accepted) ⊎ (r ≢ accepted)
accepted_or_not accepted = inl refl
accepted_or_not TokenResult.ignored_online = inr (λ e. ground arith)
accepted_or_not TokenResult.not_configured = inr (λ e. ground arith)
accepted_or_not TokenResult.no_challenge = inr (λ e. ground arith)
accepted_or_not TokenResult.bad_format = inr (λ e. ground arith)
accepted_or_not TokenResult.bad_mac = inr (λ e. ground arith)
accepted_or_not TokenResult.stale_challenge = inr (λ e. ground arith)

-- With a verifier, a token is accepted exactly if the channel is STANDBY and the token is authentic: it
-- has the right length and version, it is for this site and channel, its reserved byte and its padding
-- are 0, it answers the challenge that is held, and its MAC is right. The takeover is then confirmed from
-- this cycle on, and the challenge is the next random bytes, or none if they cannot be drawn; any other
-- token changes nothing.
pub on_takeover_token_lem :
    (rs : SiteRole) (cycle : ℕ) (verify : List ℕ → List ℕ → Bool) (token : List ℕ)
    (random : Option (List ℕ))
    → rs.cfg.verify_mac ≡ some verify
    → TokenFate rs verify cycle token random (on_takeover_token rs cycle (some token) random)
unfolding on_takeover_token check_token
on_takeover_token_lem rs cycle verify token random keyed = elim (Bool-cases rs.online) [
  | inl on ↦ inr (inl on, ground arith, ground arith)
  | inr off ↦ elim (accepted_or_not (check_token_with rs verify (some token))) [
    | inl good ↦ inl (
      off,
      check_token-IsAuthentic rs verify token good,
      ground arith,
      ground (arith, confirmed_lem rs cycle random),
    )
    | inr bad ↦
        inr (inr (λ a. bad (IsAuthentic-check_token rs verify token a)), ground arith, ground arith)
  ]
]

when_accepted :
    (rs : SiteRole) (cycle : ℕ) (verify : List ℕ → List ℕ → Bool) (token : List ℕ)
    (random : Option (List ℕ)) (o : TokenResult × SiteRole)
    → TokenFate rs verify cycle token random o
    → o.0 ≡ accepted
    → IsAuthentic rs verify token
      × (o.1 ≡ draw_challenge (record_takeover_confirmation rs cycle) cycle random)
when_accepted rs cycle verify token random o (inl (off, a, e, s)) h =
    (a, s ∙ sym (confirmed_lem rs cycle random))
when_accepted rs cycle verify token random o (inr (why, refused, s)) h = absurd (refused h)

drawn_keyed :
    (rs : SiteRole) (cycle : ℕ) (verify : List ℕ → List ℕ → Bool) (random : Option (List ℕ))
    → rs.cfg.verify_mac ≡ some verify
    → (draw_challenge (record_takeover_confirmation rs cycle) cycle random).cfg.verify_mac
      ≡ some verify
unfolding draw_challenge record_takeover_confirmation
drawn_keyed rs cycle verify none h = h
drawn_keyed rs cycle verify (some bytes) h = h

redrawn :
    (rs : SiteRole) (cycle : ℕ) (verify : List ℕ → List ℕ → Bool) (token : List ℕ)
    (random : Option (List ℕ))
    → IsAuthentic rs verify token
    → IsAuthentic (draw_challenge (record_takeover_confirmation rs cycle) cycle random) verify token
    → (bytes : List ℕ) × (random ≡ some bytes) × (read_u32_le bytes 0 ≡ rs.challenge)
unfolding draw_challenge record_takeover_confirmation read_u32_le
redrawn rs cycle verify token none a a' = let h = a'.held in absurd (ground arith)
redrawn rs cycle verify token (some bytes) a a' = (bytes, refl, sym a'.answers ∙ a.answers)

-- A token that was accepted is accepted again by the state it leaves, at any cycle, only if the channel
-- drew the same challenge once more.
pub token_single_use :
    (rs : SiteRole) (cycle later : ℕ) (verify : List ℕ → List ℕ → Bool) (token : List ℕ)
    (random random' : Option (List ℕ))
    → rs.cfg.verify_mac ≡ some verify
    → (on_takeover_token rs cycle (some token) random).0 ≡ accepted
    → (on_takeover_token
        (on_takeover_token rs cycle (some token) random).1
        later
        (some token)
        random').0
      ≡ accepted
    → (bytes : List ℕ) × (random ≡ some bytes) × (read_u32_le bytes 0 ≡ rs.challenge)
token_single_use rs cycle later verify token random random' keyed once again =
    let o = on_takeover_token rs cycle (some token) random in
    let drawn = draw_challenge (record_takeover_confirmation rs cycle) cycle random in
    let (a, e) =
      when_accepted rs cycle verify token random o
        (on_takeover_token_lem rs cycle verify token random keyed) once in
    let again' : (on_takeover_token drawn later (some token) random').0 ≡ accepted =
      subst (λ (x : SiteRole). (on_takeover_token x later (some token) random').0 ≡ accepted) e
        again in
    let (a', e') =
      when_accepted drawn later verify token random'
        (on_takeover_token drawn later (some token) random')
        (on_takeover_token_lem drawn later verify token random'
          (drawn_keyed rs cycle verify random keyed))
        again' in
    redrawn rs cycle verify token random a a'
