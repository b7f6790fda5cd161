-- ===== src/Jobs/Failure.antt =====
-- What becomes of the row of a job whose execution fails.
use Prim.Native.String.{String}
use sigarda_panel.Common.{
  ℕ, ◌+◌, ◌<◌, ◌≡◌, refl, sym, true, List, ◌∷◌, ◌++◌, Option, some, ltb, arith, [],
}
use sigarda_panel.Jobs.Model.{Job, status_queued}
use sigarda_panel.Jobs.Table.{Jobs, update_rows, has_id, schedule_retry, set_error, null_string}
use sigarda_panel.Jobs.Backoff.{default_backoff, delay}
use sigarda_panel.Jobs.Outside.{Outside, AgentResult}
use sigarda_panel.Jobs.Worker.{retry_later, execution_failed, seconds}
use sigarda_panel.Jobs.Claim.{IsOrdered, IsWellFormed, update_rows-at_id, update_rows-IsOrdered}

module _ (o : Outside) (now : ℕ) (job : Job) (message : String) (t : Jobs) (before after : List Job)
    (row : Job) (at : t.rows ≡ before ++ row ∷ after) (same : job.id ≡ row.id)
    (h : IsWellFormed t) where
  update-row :
      (f g : Job → Job)
      → ((j : Job) → (f j).id ≡ j.id)
      → update_rows (has_id job.id) g (update_rows (has_id job.id) f t.rows)
        ≡ before ++ g (f row) ∷ after
  update-row f g keeps =
      let ordered : IsOrdered 0 (before ++ row ∷ after) t.next_id = rw at at h in
      let first = update_rows-at_id row.id f before row after t.next_id refl ordered in
      let ordered' : IsOrdered 0 (before ++ f row ∷ after) t.next_id =
        rw first at (update_rows-IsOrdered (has_id row.id) f keeps 0 _ t.next_id ordered) in
      let second =
        update_rows-at_id row.id g before (f row) after t.next_id (sym (keeps row)) ordered' in
      rw (same, at, first) second

  -- In a well-formed table that holds the job's row, if its execution fails while attempts are left,
  -- the row is queued again with the error and the time of the retry, which is the backoff's delay
  -- from now; no other row changes, and there is no other effect.
  pub execution_failed-retry :
      (result : Option AgentResult)
      → job.attempts < job.max_attempts
      → ((execution_failed o now job result message t).0.rows
          ≡ before
            ++ record row {
              status = status_queued;
              next_retry_at = some (seconds (now + delay default_backoff o.jitter job.attempts));
              error = null_string message;
              updated_at = seconds now;
            }
              ∷ after)
        × ((execution_failed o now job result message t).1 ≡ [])
  unfolding execution_failed retry_later schedule_retry set_error
  execution_failed-retry result left =
      let test : ltb job.attempts job.max_attempts ≡ true = ground arith in
      rw test (update-row _ _ (λ j. refl), refl)
