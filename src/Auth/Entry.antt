-- ===== src/Auth/Entry.antt =====
-- What a login has shown, and what its answers tell.
use sigarda_panel.Common.{◌≡◌, Option, some}
use sigarda_panel.Text.{Text}
use sigarda_panel.Auth.Login.{Account, LoginBody, Panel, Outside, Answer, logged_in, denied}
use sigarda_panel.Auth.Shown.{SecondFactor, Opened, Admitted}

-- A denied login leaves sessions and users as they were; the other claim is for a token.
abbrev Outcome : (Text → Account → Panel → Type 0) → Panel → Panel × Answer → Type 0
Outcome P st (st', denied status message) = (st'.sessions ≡ st.sessions) × (st'.users ≡ st.users)
Outcome P st (st', logged_in token u) = P token u st'

module _ (o : Outside) (b : LoginBody) (u : Account) (P : Text → Account → Panel → Type 0) where
  -- What a session opened after a second factor has to show.
  abbrev Entry : Panel → Type 0
  Entry st =
      (shown : Panel)
      → SecondFactor o b st u shown
      → (token : Text) (st' : Panel) → Opened o b shown token u st'
      → P token u st'

-- The claim of an answer to a request.
abbrev pub LoginOutcome : Outside → Option LoginBody → Panel → Panel × Answer → Type 0
LoginOutcome o body st r =
    Outcome (λ token u st'. (b : LoginBody) × (body ≡ some b) × Admitted o b st token u st') st r
