-- ===== src/Ai/Http/Attempts.antt =====
-- How often a request is tried, how long it pauses, and what it returns.
use bug_bounty_escrow.Prelude.{
  ℕ, zero, suc, ◌+◌, ◌*◌, ◌≤◌, String, true, false, List, [], ◌∷◌, Option, some, none, ◌≡◌, refl,
  arith,
}
use bug_bounty_escrow.Effect.{
  Outcome, returned, raised, Event, did, Session, Environment, Action, perform, provider, throw,
}
use bug_bounty_escrow.Effect.Triples.{Post, Triple, Triple-bind}
use bug_bounty_escrow.Ai.Http.{
  Response, Answer, fetch, sleep, answered, backoff, Verdict, body, fail, again, is_ok, judge,
  follow, attempts, request_json,
}

pub fetches : List (Event Answer) → ℕ
fetches [] = 0
fetches (did fetch _ ∷ calls) = suc (fetches calls)
fetches (did (sleep _) _ ∷ calls) = fetches calls

-- The milliseconds of all pauses.
pub paused : List (Event Answer) → ℕ
paused [] = 0
paused (did fetch _ ∷ calls) = paused calls
paused (did (sleep ms) _ ∷ calls) = ms + paused calls

backoff-le : (attempt : ℕ) → backoff attempt ≤ 2000
unfolding backoff
backoff-le attempt = omega arith

-- What the latest call, a fetch, was answered.
abbrev pub last_response : List (Event Answer) → Option Response
last_response (did fetch (returned seen) ∷ _) = some seen
last_response _ = none

-- A successful response with this body.
abbrev pub Carries : String → Option Response → Type 0
Carries text (some (answered status (some content))) = (is_ok status ≡ true) × (content ≡ text)
Carries text _ = ⊥

judge-Carries :
    (left : ℕ) (r : Response) (text : String) → judge left r ≡ body text → Carries text (some r)
unfolding judge
judge-Carries left r text e = ground arith

module _ (env : Environment Answer) where
  -- From here on there are at most so many fetches and milliseconds.
  abbrev Within : ℕ → ℕ → Session Answer → Type 0
  Within f p s = (fetches s.calls ≤ f) × (paused s.calls ≤ p)

  abbrev Heard : ℕ → ℕ → Response → Session Answer → Type 0
  Heard f p r s = Within f p s × (last_response s.calls ≡ some r)

  abbrev Good : ℕ → ℕ → String → Session Answer → Type 0
  Good f p text s = Within f p s × Carries text (last_response s.calls)

  fetch-Heard :
      (f p f' p' : ℕ)
      → f + 1 ≤ f'
      → p ≤ p'
      → Triple (Within f p) (perform env fetch) (λ r. Heard (f + 1) p r) (Within f' p')
  unfolding fetches paused
  fetch-Heard f p f' p' hf hp = record { at = λ s h. ground arith }

  sleep-Within :
      (f p f' p' attempt : ℕ)
      → f ≤ f'
      → p + 2000 ≤ p'
      → Triple
          (Within f p)
          (perform env (sleep (backoff attempt)))
          (λ _. Within f (p + 2000))
          (Within f' p')
  unfolding fetches paused
  sleep-Within f p f' p' attempt hf hp = record { at = λ s h. ground (arith, backoff-le attempt) }

  follow-Good :
      (left : ℕ) (r : Response) (f p f' p' : ℕ) (rest : Action Answer String)
      → f ≤ f'
      → p ≤ p'
      → Triple (Within f p) rest (Good f' p') (Within f' p')
      → (v : Verdict) → judge left r ≡ v
      → Triple (Heard f p r) (follow v rest) (Good f' p') (Within f' p')
  follow-Good left r f p f' p' rest hf hp t (body text) e = record {
    at =
        λ s h. ((omega (arith, h.0.0), omega (arith, h.0.1)), rw h.1 (judge-Carries left r text e));
  }
  follow-Good left r f p f' p' rest hf hp t (fail code) e = record {
    at = λ s h. (omega (arith, h.0.0), omega (arith, h.0.1));
  }
  follow-Good left r f p f' p' rest hf hp t again e = record { at = λ s h. t.at s h.0 }

  no_attempt :
      (f p f' p' : ℕ)
      → f ≤ f'
      → p ≤ p'
      → Triple
          (Within f p)
          (throw {A = String} (provider "upstream_unavailable" false none))
          (Good f' p')
          (Within f' p')
  no_attempt f p f' p' hf hp = record { at = λ s h. (omega (arith, h.0), omega (arith, h.1)) }

  attempts-Good :
      (left attempt f p f' p' : ℕ)
      → f + left + 1 ≤ f'
      → p + 2000 * left ≤ p'
      → Triple (Within f p) (attempts env left attempt) (Good f' p') (Within f' p')
  unfolding attempts
  attempts-Good zero attempt f p f' p' hf hp =
      Triple-bind (λ r. Heard (f + 1) p r) (fetch-Heard f p f' p' (omega arith) (omega arith))
        λ r.
          follow-Good 0 r (f + 1) p f' p' _ (omega arith) (omega arith)
            (no_attempt (f + 1) p f' p' (omega arith) (omega arith)) (judge 0 r) refl
  attempts-Good (suc left) attempt f p f' p' hf hp =
      Triple-bind (λ r. Heard (f + 1) p r) (fetch-Heard f p f' p' (omega arith) (omega arith))
        λ r.
          follow-Good (suc left) r (f + 1) p f' p' _ (omega arith) (omega arith)
            (Triple-bind (λ _. Within (f + 1) (p + 2000))
              (sleep-Within (f + 1) p f' p' attempt (omega arith) (omega arith))
              (λ _.
                attempts-Good left (suc attempt) (f + 1) (p + 2000) f' p' (omega arith)
                  (omega arith)))
            (judge (suc left) r) refl

-- The text of a result, if there is one.
abbrev pub IsCarried : Outcome String → Option Response → Type 0
IsCarried (returned text) r = Carries text r
IsCarried (raised _) r = Unit

carried :
    (env : Environment Answer) (f p : ℕ) (o : Outcome String) (s : Session Answer)
    → Post (Good env f p) (Within env f p) o s
    → (fetches s.calls ≤ f) × ((paused s.calls ≤ p) × IsCarried o (last_response s.calls))
carried env f p (returned text) s h = (h.0.0, (h.0.1, h.1))
carried env f p (raised e) s h = (h.0, (h.1, tt))

-- Whatever the provider answers, a request comes to an end after at most one fetch more than the
-- retries and at most two seconds of pause for each retry; a text that it returns is the body of
-- the latest response, which was successful.
pub request_json-IsBounded :
    (env : Environment Answer) (max_retries : ℕ) (s : Session Answer)
    → let end = request_json env max_retries s in
      (fetches end.1.calls ≤ fetches s.calls + max_retries + 1)
      × ((paused end.1.calls ≤ paused s.calls + 2000 * max_retries)
          × IsCarried end.0 (last_response end.1.calls))
unfolding request_json
request_json-IsBounded env max_retries s =
    carried env (fetches s.calls + max_retries + 1) (paused s.calls + 2000 * max_retries) _ _ (
      (attempts-Good env max_retries 0 (fetches s.calls) (paused s.calls) _ _ (omega arith)
          (omega arith)).at
        s (omega arith, omega arith))
