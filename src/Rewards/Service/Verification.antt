-- ===== src/Rewards/Service/Verification.antt =====
-- Which payout wallets are stored as verified.
use bug_bounty_escrow.Prelude.{
  ℕ, ◌+◌, ◌<◌, String, true, Option, some, none, is_none, List, [], ◌∷◌, ◌≡◌, refl, arith, str_eq,
  str_eq_iff, eq_ignoring_case, if◌then◌else◌,
}
use bug_bounty_escrow.Effect.{returned, Event, did, Session, Environment, ◌>>=◌, ◌>>◌}
use bug_bounty_escrow.Effect.Triples.{Triple, Triple-bind, Triple-either}
use bug_bounty_escrow.Access.{Principal}
use bug_bounty_escrow.Rewards.{
  ChallengeRow, Completion, Answer, now, find_challenge, recover_address, complete,
}
use bug_bounty_escrow.Rewards.Service.{
  Primitives, challenge_ttl_ms, message_for, is_genuine, require_researcher, own_challenge, reuse,
  check_challenge, recovered, complete_with, verify_challenge, verify_wallet,
}

-- The challenge that was read last, with the identity that was asked for.
abbrev pub latest_challenge : List (Event Answer) → Option (String × ChallengeRow)
latest_challenge [] = none
latest_challenge (did (find_challenge id) (returned (some row)) ∷ _) = some (id, row)
latest_challenge (did (find_challenge id) _ ∷ _) = none
latest_challenge (did _ _ ∷ calls) = latest_challenge calls

abbrev pub latest_time : List (Event Answer) → Option ℕ
latest_time [] = none
latest_time (did now (returned time) ∷ _) = some time
latest_time (did _ _ ∷ calls) = latest_time calls

-- The message whose signer was recovered last, and the signer.
abbrev pub latest_signer : List (Event Answer) → Option (String × String)
latest_signer [] = none
latest_signer (did (recover_address message _) (returned address) ∷ _) = some (message, address)
latest_signer (did _ _ ∷ calls) = latest_signer calls

-- The challenge runs for its time to live and still runs, and its message is the expected one.
abbrev pub IsRunning :
    Primitives → ChallengeRow → Option ℕ → Option ℕ → Option ℕ → Option String → Type 0
IsRunning h row (some issued) (some expires) (some time) (some account) =
    (expires ≡ issued + challenge_ttl_ms)
    × ((time < expires) × (row.message ≡ message_for h row issued expires account))
IsRunning h row _ _ _ _ = ⊥

-- An unused challenge of this application.
abbrev pub IsOpen : Primitives → ChallengeRow → Option ℕ → Type 0
IsOpen h row time =
    (row.consumed_at ≡ none)
    × ((row.invalidated_at ≡ none)
        × ((row.domain ≡ h.domain)
            × IsRunning h row (h.date_ms row.issued_at) (h.date_ms row.expires_at) time
                (h.checksum row.address)))

-- The researcher's own open challenge, whose message was signed by the account of its address.
abbrev pub IsProven :
    Primitives
    → Completion
    → Option (String × ChallengeRow)
    → Option ℕ
    → Option (String × String)
    → Type 0
IsProven h c (some (id, row)) time (some (message, address)) =
    ((id ≡ c.challenge_id) × (row.researcher_id ≡ c.researcher_id))
    × (IsOpen h row time
        × ((message ≡ row.message)
            × ((eq_ignoring_case address row.address ≡ true)
                × ((address ≡ c.verified_address)
                    × (h.hash row.message ≡ c.verified_message_hash)))))
IsProven h c _ _ _ = ⊥

-- Every stored wallet is proven.
abbrev pub IsAuthentic : Primitives → List (Event Answer) → Type 0
IsAuthentic h [] = Unit
IsAuthentic h (did (complete c) _ ∷ calls) =
    IsProven h c (latest_challenge calls) (latest_time calls) (latest_signer calls)
    × IsAuthentic h calls
IsAuthentic h (did _ _ ∷ calls) = IsAuthentic h calls

genuine-message :
    (h : Primitives) (row : ChallengeRow) (message : String)
    → is_genuine h row message ≡ true
    → (row.domain ≡ h.domain) × (row.message ≡ message)
unfolding is_genuine
genuine-message h row message e =
    ground (arith, str_eq_iff row.domain h.domain, str_eq_iff row.message message)

-- What the checks say.
abbrev IsChecked :
    Primitives → ChallengeRow → Option ℕ → Option ℕ → Option ℕ → Option String → Type 0
IsChecked h row (some issued) (some expires) (some time) (some account) =
    (expires ≡ issued + challenge_ttl_ms)
    × ((time < expires) × (is_genuine h row (message_for h row issued expires account) ≡ true))
IsChecked h row _ _ _ _ = ⊥

IsChecked-IsRunning :
    (h : Primitives) (row : ChallengeRow) (issued expires time : Option ℕ) (account : Option String)
    → IsChecked h row issued expires time account
    → (row.domain ≡ h.domain) × IsRunning h row issued expires time account
IsChecked-IsRunning h row none expires time account z = absurd z
IsChecked-IsRunning h row (some i) none time account z = absurd z
IsChecked-IsRunning h row (some i) (some e) none account z = absurd z
IsChecked-IsRunning h row (some i) (some e) (some t) none z = absurd z
IsChecked-IsRunning h row (some i) (some e) (some t) (some account) z =
    let g = genuine-message h row (message_for h row i e account) z.1.1 in
    (g.0, (z.0, (z.1.0, g.1)))

module _ (env : Environment Answer) (h : Primitives) (user id : String) where
  abbrev Fine : Session Answer → Type 0
  Fine s = IsAuthentic h s.calls

  -- The researcher's challenge was read.
  abbrev Owned : ChallengeRow → Session Answer → Type 0
  Owned row s =
      (latest_challenge s.calls ≡ some (id, row))
      × ((str_eq row.researcher_id user ≡ true) × Fine s)

  abbrev Unused : ChallengeRow → Session Answer → Type 0
  Unused row s = (row.consumed_at ≡ none) × Owned row s

  abbrev Checked : ChallengeRow → Session Answer → Type 0
  Checked row s =
      (row.invalidated_at ≡ none)
      × (IsChecked h row (h.date_ms row.issued_at) (h.date_ms row.expires_at) (latest_time s.calls)
            (h.checksum row.address)
          × Unused row s)

  abbrev Signed : ChallengeRow → String → Session Answer → Type 0
  Signed row address s = (latest_signer s.calls ≡ some (row.message, address)) × Checked row s

  own_challenge-Owned : Triple Fine (own_challenge env h user id) Owned Fine
  unfolding own_challenge
  own_challenge-Owned = record { at = λ s z. ground arith }

  check-Checked :
      (row : ChallengeRow) → Triple (Unused row) (check_challenge env h row) (λ _. Checked row) Fine
  unfolding check_challenge
  check-Checked row = record { at = λ s z. ground arith }

  recovered-Signed :
      (row : ChallengeRow) (signature : String)
      → Triple
          (Checked row)
          (recovered env h row signature)
          (λ address s. (eq_ignoring_case address row.address ≡ true) × Signed row address s)
          Fine
  unfolding recovered
  recovered-Signed row signature = record { at = λ s z. ground arith }

  complete-Fine :
      (row : ChallengeRow) (label : Option String) (address : String)
      → Triple
          (λ s. (eq_ignoring_case address row.address ≡ true) × Signed row address s)
          (complete_with env h user id label row address)
          (λ _. Fine)
          Fine
  unfolding complete_with
  complete-Fine row label address = record {
    at = λ s z. ground (
      arith,
      str_eq_iff row.researcher_id user,
      IsChecked-IsRunning h row (h.date_ms row.issued_at) (h.date_ms row.expires_at)
          (latest_time s.calls) (h.checksum row.address),
    );
  }

  reuse-Fine : (row : ChallengeRow) → Triple (Owned row) (reuse env h user row) (λ _. Fine) Fine
  unfolding reuse
  reuse-Fine row = record { at = λ s z. ground arith }

  verify_challenge-Fine :
      (signature : String) (label : Option String) (row : ChallengeRow)
      → Triple (Owned row) (verify_challenge env h user id signature label row) (λ _. Fine) Fine
  unfolding verify_challenge
  verify_challenge-Fine signature label row = branch row.consumed_at refl
    where
      branch :
          (consumed : Option String)
          → row.consumed_at ≡ consumed
          → Triple
              (Owned row)
              (if is_none consumed
                then ((check_challenge env h row
                    >> (◌>>=◌
                        (recovered env h row signature)
                        (complete_with env h user id label row))))
                else reuse env h user row)
              (λ _. Fine)
              Fine
      branch none e = record {
        at = λ s z.
            (Triple-bind {P = Unused row} (λ _. Checked row) (check-Checked row)
                (λ _. Triple-bind _ (recovered-Signed row signature) (complete-Fine row label))).at
              s (e, z);
      }
      branch (some time) e = reuse-Fine row

  researcher-Fine : (p : Principal) → Triple Fine (require_researcher env h p) (λ _. Fine) Fine
  unfolding require_researcher
  researcher-Fine p = record { at = λ s z. ground arith }

-- Whatever the answers, `verifyPayoutWallet` stores a wallet only for an unused challenge that was
-- read as the researcher's own, is of this application, lasts for its time to live and has not
-- expired by the last reading of the clock, and whose message is the expected one; the account
-- recovered from the signature of this very message is the address of the challenge, and it is
-- stored with the hash of the message.
pub verify_wallet-IsAuthentic :
    (env : Environment Answer) (h : Primitives) (p : Principal) (id signature : String)
    (label : Option String) (s : Session Answer)
    → IsAuthentic h s.calls
    → IsAuthentic h (verify_wallet env h p id signature label s).1.calls
unfolding verify_wallet
verify_wallet-IsAuthentic env h p id signature label s z =
    Triple-either (verify_wallet env h p id signature label)
      (Triple-bind (λ _. Fine env h p.user_id id) (researcher-Fine env h p.user_id id p)
        λ _.
          Triple-bind (Owned env h p.user_id id) (own_challenge-Owned env h p.user_id id)
            (verify_challenge-Fine env h p.user_id id signature label))
      s z
