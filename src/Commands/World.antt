-- ===== src/Commands/World.antt =====
-- The state of a download: the connection, the files, the statistics, and what was reported.
pub mod Outcomes
use pipop_core.Base.{ℕ, Bool, List, [], ◌∷◌, ◌++◌, Bytes, Result, ok, err, stuck, map_err}
use pipop_core.Error.{PtpIpError, from_io}
use pipop_core.Types.{DownloadStats}
use pipop_core.Net.{Wire, Net}
use pipop_core.Files.{Disk, Fs}

-- A call of the progress callback: `DownloadProgressCallback` of src/commands.rs.
pub record Report : Type 0 where
  pub current : ℕ
  pub total : ℕ
  pub complete : Bool
  pub stats : DownloadStats

pub record World : Type 0 where
  pub wire : Wire
  pub disk : Disk
  pub stats : DownloadStats
  pub reports : List Report

abbrev pub Action : Type 0 → Type 0
Action A = World → Result PtpIpError A × World

abbrev pub resume : {A B : Type 0} → Result PtpIpError A → (A → Action B) → Action B
resume (ok a) f w = f a w
resume (err e) f w = (err e, w)
resume stuck f w = (stuck, w)

infixl 5 ◌>>=◌ ◌>>◌
abbrev pub ◌>>=◌ : {A B : Type 0} → Action A → (A → Action B) → Action B
◌>>=◌ m f w = resume (m w).0 f (m w).1

abbrev pub ◌>>◌ : {A B : Type 0} → Action A → Action B → Action B
m >> k = m >>= λ _. k

abbrev pub pure : {A : Type 0} → A → Action A
pure a w = (ok a, w)

abbrev pub fail : {A : Type 0} → PtpIpError → Action A
fail e w = (err e, w)

abbrev pub out_of_fuel : {A : Type 0} → Action A
out_of_fuel w = (stuck, w)

-- A call on the files behind a `?`.
abbrev pub on_disk : {A : Type 0} → Fs A → Action A
on_disk m w = (map_err from_io (m w.disk).0, record w { disk = (m w.disk).1 })

-- A call on the files whose result is thrown away, `let _ = ...`.
abbrev pub ignoring : {A : Type 0} → Fs A → Action (Unit {0})
ignoring m w = (ok tt, record w { disk = (m w.disk).1 })

-- A call over the connection that is behind a `?`.
abbrev pub on_wire : {A : Type 0} → Net PtpIpError A → Action A
on_wire m w = ((m w.wire).0, record w { wire = (m w.wire).1 })

-- A call over the connection that also counts.
abbrev pub counted :
    {A : Type 0} → (DownloadStats → Wire → Result PtpIpError A × DownloadStats × Wire) → Action A
counted m w =
    ((m w.stats w.wire).0, record w { stats = (m w.stats w.wire).1; wire = (m w.stats w.wire).2 })

abbrev pub change_stats : (DownloadStats → DownloadStats) → Action (Unit {0})
change_stats f w = (ok tt, record w { stats = f w.stats })

-- `progress_callback(current, total, complete, stats)`
abbrev pub report : ℕ → ℕ → Bool → Action (Unit {0})
report current total complete w = (
  ok tt,
  record w {
    reports =
        w.reports
        ++ (record { current = current; total = total; complete = complete; stats = w.stats } ∷ []);
  },
)
