-- ===== src/Examples/Sandboxes.antt =====
-- The log of a sandbox execution at concrete entries.
use coder_er.Base.{◌+◌, ℕ, ◌≤◌, ◌≡◌, false, Option, none, some, List, [], ◌∷◌, Text, codes, All}
use coder_er.Sandbox.Logs.{Source, Appended, append, new_accumulator, stdout, stderr}
use coder_er.Sandbox.Logs.Bounds.{
  sum_bytes, contents, IsChain, IsMeasured, IsAppended, append-IsAppended,
}
use coder_er.Sandbox.Logs.Histories.{Entry, Logged, texts, append_all, append_all-bounded}

-- A hash that is easy to follow.
abbrev plus : Source → ℕ → Text → Option ℕ → ℕ
plus source sequence content none = sequence
plus source sequence content (some previous) = sequence + previous

abbrev out : Source
out = record { stream = stdout; command_id = some "c1"; occurred_at = 7 }

abbrev entries : List Entry
entries =
    (out, codes "installing")
    ∷ (record { stream = stderr; command_id = some "c1"; occurred_at = 8 }, codes "failed: é")
    ∷ []

append-IsAppended_example :
    (result : Appended ℕ) × ((append plus 12 4 out (codes "installing") new_accumulator
        ≡ some result)
      × (IsAppended plus 12 4 (codes "installing") new_accumulator result
          × (result.1.0.truncated ≡ false → contents result.0 ≡ codes "installing")))
append-IsAppended_example = append-IsAppended plus 12 4 out (codes "installing") new_accumulator

append_all-bounded_example :
    (log : Logged ℕ) × ((append_all plus 12 4 entries new_accumulator ≡ some log)
      × ((log.1.total_bytes ≡ sum_bytes log.0)
          × ((log.1.total_bytes ≤ 12)
              × (All (IsMeasured plus 12 4) log.0
                  × (IsChain plus 12 4 0 none log.0 log.1.sequence log.1.previous_hash
                      × (log.1.truncated ≡ false → contents log.0 ≡ texts entries))))))
append_all-bounded_example = append_all-bounded plus 12 4 entries
