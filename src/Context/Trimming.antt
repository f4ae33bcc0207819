-- ===== src/Context/Trimming.antt =====
-- internal/context/assembler.go and compactor.go: what is left of a history.
use sclaw.Prelude.{
  ℕ, suc, ◌+◌, ◌≤◌, ◌<◌, ◌≡◌, refl, sym, ap, subst, ◌⊎◌, inl, inr, String, List, [], ◌∷◌, ◌++◌, ltb,
  leb, if◌then◌else◌, length, drop, arith, Bool-cases,
}
use sclaw.Provider.Types.{LlmMessage}
use sclaw.Context.{estimate_messages, is_system, drop_oldest, trim_history}

-- The summary at the start of a history, if there is one, and the rest.
abbrev pub summary_of : List LlmMessage → List LlmMessage
summary_of [] = []
summary_of (m ∷ messages) = if is_system m.role then m ∷ [] else []

abbrev pub after_summary : List LlmMessage → List LlmMessage
after_summary [] = []
after_summary (m ∷ messages) = if is_system m.role then messages else m ∷ messages

module _ (estimate : String → ℕ) (budget : ℕ) where
  -- `out` is `head` with `n` of the oldest messages of `rest` dropped: it fits the budget or keeps
  -- only the last, and no message is dropped in vain.
  abbrev pub Minimal : List LlmMessage → List LlmMessage → List LlmMessage → Type 0
  Minimal head rest out =
      (n : ℕ) × (out ≡ head ++ drop n rest)
      × ((estimate_messages estimate out ≤ budget) ⊎ (length (drop n rest) ≤ 1))
      × ((n ≡ 0)
          ⊎ ((k : ℕ) × (n ≡ suc k) × (budget < estimate_messages estimate (head ++ drop k rest))))

  Dropped : ℕ → List LlmMessage → List LlmMessage → Type 0
  Dropped summary rest out =
      (n : ℕ) × (out ≡ drop n rest)
      × ((estimate_messages estimate out + summary ≤ budget) ⊎ (length (drop n rest) ≤ 1))
      × ((n ≡ 0)
          ⊎ ((k : ℕ) × (n ≡ suc k) × (budget < estimate_messages estimate (drop k rest) + summary)))

  drop_oldest-Dropped :
      (summary tokens : ℕ) (rest : List LlmMessage)
      → tokens ≡ estimate_messages estimate rest + summary
      → Dropped summary rest (drop_oldest estimate budget summary tokens rest)
  unfolding drop_oldest Dropped
  drop_oldest-Dropped summary tokens [] e = (0, refl, inr (omega arith), inl refl)
  drop_oldest-Dropped summary tokens (m ∷ []) e = (0, refl, inr (omega arith), inl refl)
  drop_oldest-Dropped summary tokens (m ∷ k ∷ rest) e = elim (Bool-cases (ltb budget tokens)) [
    | inr b ↦ rw (b, drop_oldest) (0, refl, inl (ground (arith, b, e)), inl refl)
    | inl b ↦
        let (n, is, fits, least) =
          drop_oldest-Dropped summary (estimate_messages estimate (k ∷ rest) + summary) (k ∷ rest)
            refl in
        rw (b, drop_oldest) (suc n, is, fits, inr (n, refl, over n least (ground (arith, b, e))))
  ]
    where
      over :
          (n : ℕ)
          → (n ≡ 0)
            ⊎ ((l : ℕ) × (n ≡ suc l)
                × (budget < estimate_messages estimate (drop l (k ∷ rest)) + summary))
          → budget < estimate_messages estimate (m ∷ k ∷ rest) + summary
          → budget < estimate_messages estimate (drop n (m ∷ k ∷ rest)) + summary
      over n (inl e) top =
          subst (λ j. budget < estimate_messages estimate (drop j (m ∷ k ∷ rest)) + summary) (sym e)
            top
      over n (inr (l, e, least)) top =
          subst (λ j. budget < estimate_messages estimate (drop j (m ∷ k ∷ rest)) + summary) (sym e)
            least

  with_summary :
      (m : LlmMessage) (rest out : List LlmMessage)
      → Dropped (estimate_messages estimate (m ∷ [])) rest out
      → Minimal (m ∷ []) rest (m ∷ out)
  unfolding Dropped estimate_messages
  with_summary m rest out (n, is, fits, least) = (
    n,
    ap (λ r. m ∷ r) is,
    elim fits [ inl f ↦ inl (omega (arith, f)) | inr f ↦ inr f ],
    elim least [ inl z ↦ inl z | inr (k, e, f) ↦ inr (k, e, omega (arith, f)) ],
  )

  without_summary : (rest out : List LlmMessage) → Dropped 0 rest out → Minimal [] rest out
  unfolding Dropped
  without_summary rest out (n, is, fits, least) = (
    n,
    is,
    elim fits [ inl f ↦ inl (omega (arith, f)) | inr f ↦ inr f ],
    elim least [ inl z ↦ inl z | inr (k, e, f) ↦ inr (k, e, omega (arith, f)) ],
  )

  -- trimHistory keeps the summary message, if there is one, and drops the oldest messages after it.
  -- What is left fits the budget, or only the last message is left beside the summary. No message
  -- is dropped in vain: with one more kept, the history would be over the budget.
  pub trim_history-Minimal :
      (history : List LlmMessage)
      → Minimal (summary_of history) (after_summary history) (trim_history estimate budget history)
  unfolding trim_history
  trim_history-Minimal [] = (0, refl, inr (omega arith), inl refl)
  trim_history-Minimal (m ∷ messages) =
      elim (Bool-cases (leb (estimate_messages estimate (m ∷ messages)) budget)) [
        | inl fits ↦ rw (fits, trim_history) (0, whole, inl (ground (arith, fits)), inl refl)
        | inr over ↦ elim (Bool-cases (is_system m.role)) [
          | inl b ↦
              rw (over, trim_history)
                (rw (b, trim_history)
                  (with_summary m messages
                    (drop_oldest estimate budget (estimate_messages estimate (m ∷ []))
                      (estimate_messages estimate (m ∷ messages)) messages)
                    (drop_oldest-Dropped (estimate_messages estimate (m ∷ []))
                      (estimate_messages estimate (m ∷ messages)) messages
                      (unfold estimate_messages in (omega arith)))))
          | inr b ↦
              rw (over, trim_history)
                (rw (b, trim_history)
                  (without_summary (m ∷ messages)
                    (drop_oldest estimate budget 0 (estimate_messages estimate (m ∷ messages))
                      (m ∷ messages))
                    (drop_oldest-Dropped 0 (estimate_messages estimate (m ∷ messages))
                      (m ∷ messages) (omega arith))))
        ]
      ]
    where
      whole : m ∷ messages ≡ summary_of (m ∷ messages) ++ after_summary (m ∷ messages)
      whole = ground arith
