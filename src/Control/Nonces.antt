-- ===== src/Control/Nonces.antt =====
-- How often a nonce serves.
use zonzon.Base.{
  ℕ, ◌/◌, ◌≡◌, refl, true, none, some, List, [], ◌∷◌, All, sym, ◌==◌, arith, Bool-cases, inl, inr,
}
use zonzon.Base.Text.{Text, codes, text_eq_refl, includes}
use zonzon.Control.{Handler, Services, enter_window, solves, check_nonce, verify_proof_of_work}

-- an attempt to pass, at its time
pub record Attempt : Type 0 where
  pub now : ℕ
  pub nonce : Text
  pub device : Text
  pub payload : Text

module _ (Config : Type 0) (services : Services Config) where
  spent :
      (now : ℕ) (nonce d p : Text) (h : Handler Config)
      → includes h.seen_nonces nonce ≡ true
      → (check_nonce Config services now nonce d p h).0
        ≡ some (codes "Proof of Work challenge nonce already used")
  unfolding check_nonce
  spent now nonce d p h e = rw e refl

  enter_window_same :
      (now later : ℕ) (h : Handler Config)
      → now / 300000 ≡ later / 300000
      → h.current_pow_window ≡ now / 300000
      → enter_window Config later h ≡ h
  unfolding enter_window
  enter_window_same now later h same e =
      let current : (h.current_pow_window == later / 300000) ≡ true = ground arith in
      rw current refl

  enter_window-window :
      (now : ℕ) (h : Handler Config) → (enter_window Config now h).current_pow_window ≡ now / 300000
  unfolding enter_window
  enter_window-window now h = ground arith

  pub check_nonce-kept :
      (now : ℕ) (nonce d p : Text) (h : Handler Config)
      → ((check_nonce Config services now nonce d p h).1.current_pow_window ≡ h.current_pow_window)
        × ((check_nonce Config services now nonce d p h).1.config ≡ h.config)
  unfolding check_nonce
  check_nonce-kept now nonce d p h = elim (Bool-cases (includes h.seen_nonces nonce)) [
    | inl seen ↦ rw seen (refl, refl)
    | inr new ↦ elim (Bool-cases (solves Config services now nonce d p h)) [
      | inr wrong ↦ rw (new, wrong) (refl, refl)
      | inl right ↦ rw (new, right) (refl, refl)
    ]
  ]

  -- attempts one after the other, whatever comes of each
  unfoldable pub attempt_all : List Attempt → Handler Config → Handler Config
  attempt_all [] h = h
  attempt_all (a ∷ attempts) h =
      attempt_all attempts
        (verify_proof_of_work Config services a.now a.nonce a.device a.payload h).1

  -- A nonce that is spent in a window.
  record IsSpent (nonce : Text) (window : ℕ) (h : Handler Config) : Type 0 where
    current : h.current_pow_window ≡ window
    seen : includes h.seen_nonces nonce ≡ true

  check_nonce-IsSpent :
      (now : ℕ) (nonce other d p : Text) (window : ℕ) (h : Handler Config)
      → IsSpent nonce window h
      → IsSpent nonce window (check_nonce Config services now other d p h).1
  unfolding check_nonce
  check_nonce-IsSpent now nonce other d p window h s =
      elim (Bool-cases (includes h.seen_nonces other)) [
        | inl seen ↦ rw seen s
        | inr new ↦ elim (Bool-cases (solves Config services now other d p h)) [
          | inr wrong ↦ rw (new, wrong) s
          | inl right ↦
              rw (new, right) (record { current = s.current; seen = ground (arith, s.seen) })
        ]
      ]

  accepted-IsSpent :
      (now : ℕ) (nonce d p : Text) (h : Handler Config)
      → (check_nonce Config services now nonce d p h).0 ≡ none
      → IsSpent nonce h.current_pow_window (check_nonce Config services now nonce d p h).1
  unfolding check_nonce
  accepted-IsSpent now nonce d p h e = elim (Bool-cases (includes h.seen_nonces nonce)) [
    | inl seen ↦ absurd (ground (arith, rw seen at e))
    | inr new ↦ elim (Bool-cases (solves Config services now nonce d p h)) [
      | inr wrong ↦ absurd (ground (arith, rw (new, wrong) at e))
      | inl right ↦ rw (new, right) (record { current = refl; seen = rw (text_eq_refl nonce) refl })
    ]
  ]

  verify_proof_of_work-IsSpent :
      (now : ℕ) (nonce other d p : Text) (h : Handler Config)
      → IsSpent nonce (now / 300000) h
      → IsSpent nonce (now / 300000) (verify_proof_of_work Config services now other d p h).1
  unfolding verify_proof_of_work
  verify_proof_of_work-IsSpent now nonce other d p h s =
      rw (enter_window_same now now h refl s.current)
        (check_nonce-IsSpent now nonce other d p (now / 300000) h s)

  attempt_all-IsSpent :
      (window : ℕ) (nonce : Text) (attempts : List Attempt) (h : Handler Config)
      → All (λ a. a.now / 300000 ≡ window) attempts
      → IsSpent nonce window h
      → IsSpent nonce window (attempt_all attempts h)
  unfolding attempt_all
  attempt_all-IsSpent window nonce [] h w s = s
  attempt_all-IsSpent window nonce (a ∷ attempts) h w s =
      attempt_all-IsSpent window nonce attempts _ w.1 (
        rw w.0 at (
          verify_proof_of_work-IsSpent a.now nonce a.nonce a.device a.payload h
            (rw (sym w.0) at s)))

  -- A nonce that has been accepted is refused for the rest of its window of five minutes, for any
  -- device and payload, whatever attempts come in between within that window.
  pub verify_proof_of_work_once :
      (now later : ℕ) (nonce d p d' p' : Text) (attempts : List Attempt) (h : Handler Config)
      → now / 300000 ≡ later / 300000
      → All (λ a. a.now / 300000 ≡ now / 300000) attempts
      → (verify_proof_of_work Config services now nonce d p h).0 ≡ none
      → (verify_proof_of_work Config services later nonce d' p'
          (attempt_all attempts (verify_proof_of_work Config services now nonce d p h).1)).0
        ≡ some (codes "Proof of Work challenge nonce already used")
  unfolding verify_proof_of_work enter_window
  verify_proof_of_work_once now later nonce d p d' p' attempts h same w e =
      let first = accepted-IsSpent now nonce d p (enter_window Config now h) e in
      let s =
        attempt_all-IsSpent (now / 300000) nonce attempts
          (verify_proof_of_work Config services now nonce d p h).1 w
          (rw (enter_window-window now h) at first) in
      let after = attempt_all attempts (verify_proof_of_work Config services now nonce d p h).1 in
      rw (enter_window_same now later after same s.current) (spent later nonce d' p' after s.seen)
