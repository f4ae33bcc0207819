-- ===== src/Context/Assembly.antt =====
-- internal/context/assembler.go and compactor.go: what Compact keeps, and the budget of Assemble.
use sclaw.Prelude.{
  ℕ, ◌-◌, ◌≤◌, ◌<◌, ◌≡◌, ◌≢◌, refl, ◌⊎◌, inl, inr, String, true, false, List, [], ◌∷◌, ◌++◌, leb,
  length, length-drop, take-append-drop, take, drop, arith, Bool-cases, String-discrete,
}
use sclaw.Provider.Types.{LlmMessage}
use sclaw.Context.{
  Compactor, prepended, summarize, summary_message, prepend_summary, compact, format_memory_facts,
  estimate_messages, ContextAssembler, AssemblyRequest, AssemblyResult, compact_history,
  trim_history, fixed_budget, available, exceeded,
}
use sclaw.Context.Trimming.{summary_of}

-- What Compact makes of a history.
abbrev pub Compacted : Compactor → List LlmMessage → String ⊎ List LlmMessage → Type 0
Compacted c history (inl e) =
    summarize c (take (length history - c.config.retain_recent) history) ≡ inl e
Compacted c history (inr out) =
    ((length history ≤ c.config.retain_recent) × (out ≡ history))
    ⊎ ((recent : List LlmMessage) × (length recent ≡ c.config.retain_recent)
        × (take (length history - c.config.retain_recent) history ++ recent ≡ history)
        × ((s : String) × (summarize c (take (length history - c.config.retain_recent) history)
              ≡ inr s)
            × (((s ≡ "") × (out ≡ recent)) ⊎ ((s ≢ "") × (out ≡ summary_message s ∷ recent)))))

-- Compact leaves a history that is short enough as it is. Otherwise it keeps exactly the retained
-- number of the most recent messages, in order, behind one message with the summary of all those
-- before them; the message is left out exactly if that summary is empty. It fails only with the
-- summarizer.
pub compact-Compacted :
    (c : Compactor) (history : List LlmMessage) → Compacted c history (compact c history)
unfolding compact prepend_summary
compact-Compacted c history = elim (Bool-cases (leb (length history) c.config.retain_recent)) [
  | inl b ↦ rw (b, compact) (inl (ground (arith, b), refl))
  | inr b ↦
      rw (b, compact)
        (of_summary (summarize c (take (length history - c.config.retain_recent) history)) refl
          (ground (arith, b)))
]
  where
    recent : List LlmMessage
    recent = drop (length history - c.config.retain_recent) history

    with_summary :
        (s : String)
        → ((s ≡ "") × (prepend_summary s recent ≡ recent))
          ⊎ ((s ≢ "") × (prepend_summary s recent ≡ summary_message s ∷ recent))
    with_summary s =
        unfold prepend_summary in
        (elim (String-discrete s "") [
          | yes e ↦ inl (e, ground (arith, e))
          | no n ↦ inr (n, ground (arith, n))
        ])

    of_summary :
        (r : String ⊎ String)
        → summarize c (take (length history - c.config.retain_recent) history) ≡ r
        → c.config.retain_recent < length history
        → Compacted c history (prepended recent r)
    of_summary (inl e) is h = unfold prepended in is
    of_summary (inr s) is h =
        unfold prepended prepend_summary in
        (inr (
          recent,
          omega (arith, h, length-drop (length history - c.config.retain_recent) history),
          take-append-drop (length history - c.config.retain_recent) history,
          (s, is, with_summary s),
        ))

-- The facts fit the limit, if there are any.
Fit : (String → ℕ) → ℕ → List String → Type 0
Fit estimate max_tokens [] = Unit
Fit estimate max_tokens (fact ∷ facts) = estimate (format_memory_facts (fact ∷ facts)) ≤ max_tokens

-- Of a history, only its summary, if it starts with one, and at most one more message are left.
abbrev pub OnlyLast : List LlmMessage → List LlmMessage → Type 0
OnlyLast history out =
    (last : List LlmMessage) × (out ≡ summary_of history ++ last) × (length last ≤ 1)

-- What Assemble makes of a request.
abbrev pub Assembled : ContextAssembler → AssemblyRequest → String ⊎ AssemblyResult → Type 0
Assembled a req (inl e) = compact_history a.compactor req.history ≡ inl e
Assembled a req (inr r) =
    (r.budget.history ≡ estimate_messages a.estimate r.messages)
    × ((a.config.max_memory_tokens ≡ 0) ⊎ (r.budget.memory ≤ a.config.max_memory_tokens))
    × ((h : List LlmMessage) × (compact_history a.compactor req.history ≡ inr (h, r.compacted))
        × (r.messages ≡ trim_history a.estimate (available (fixed_budget a req)) h)
        × ((exceeded r.budget ≡ false)
            ⊎ (exceeded (fixed_budget a req) ≡ true)
            ⊎ OnlyLast h r.messages))
