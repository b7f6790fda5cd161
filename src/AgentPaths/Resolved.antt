-- ===== src/AgentPaths/Resolved.antt =====
-- What resolveBackupFile of internal/agenthttp/validate.go resolves.
use sigarda_panel.Common.{◌≡◌, ◌⊎◌, true, All, map}
use sigarda_panel.Text.{Text, codes, split}
use sigarda_panel.Path.{clean, segments}
use sigarda_panel.Path.Clean.{IsName}
use sigarda_panel.Path.Under.{IsInside}
use sigarda_panel.AgentPaths.Words.{Router}
use sigarda_panel.AgentPaths.Backups.{ends_with, lower}
use sigarda_panel.AgentPaths.Inside.{HasBackupPart}

-- Where a file is that the agent takes for a backup: no part "", "." or "..", and strictly inside the
-- backup directory or with a part "backup" or "backups".
abbrev pub IsBackupPlace : Router → Text → Type 0
IsBackupPlace r path =
    All IsName (segments path)
    × (IsInside (segments r.backup_dir) (segments path) ⊎ HasBackupPart (split b'/' (clean path)))

-- A name that ends in one of the known file types, in any case.
abbrev pub HasKnownType : Text → Type 0
HasKnownType path =
    (ends_with (map lower path) (codes ".tar.gz") ≡ true)
    ⊎ (ends_with (map lower path) (codes ".tgz") ≡ true)
    ⊎ (ends_with (map lower path) (codes ".sql") ≡ true)
    ⊎ (ends_with (map lower path) (codes ".sql.gz") ≡ true)
    ⊎ (ends_with (map lower path) (codes ".zip") ≡ true)
