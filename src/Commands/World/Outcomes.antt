-- ===== src/Commands/World/Outcomes.antt =====
-- What holds after an action, with a rule for each way to build one.
use pipop_core.Base.{◌≡◌, refl, Bool, true, false, Result, ok, err, stuck, map_err, if◌then◌else◌}
use pipop_core.Io.{IoError}
use pipop_core.Error.{PtpIpError, from_io}
use pipop_core.Net.{Wire}
use pipop_core.Files.{Disk, Fs}
use pipop_core.Files.Rules.{Files, Does}
use pipop_core.Commands.World.{World, Action, resume, on_disk}

-- The action ends: with a value and a state of `P`, or with an error and a state of `Q`.
abbrev pub Ensures :
    {A : Type 0} → (A → World → Type 0) → (World → Type 0) → Result PtpIpError A × World → Type 0
Ensures P Q (ok a, w) = P a w
Ensures P Q (err e, w) = Q w
Ensures P Q (stuck, w) = ⊥

module _ {A B : Type 0} where
  pub resume-Ensures :
      (P : A → World → Type 0) (R : B → World → Type 0) (Q : World → Type 0)
      (p : Result PtpIpError A × World) (f : A → Action B)
      → Ensures P Q p
      → ((a : A) (w : World) → P a w → Ensures R Q (f a w))
      → Ensures R Q (resume p.0 f p.1)
  resume-Ensures P R Q (ok a, w) f h k = k a w h
  resume-Ensures P R Q (err e, w) f h k = h
  resume-Ensures P R Q (stuck, w) f h k = h

  -- The same, where the rest may rely on what the first action came to.
  pub resume-Ensures_from :
      (P : A → World → Type 0) (R : B → World → Type 0) (Q : World → Type 0)
      (p : Result PtpIpError A × World) (f : A → Action B)
      → Ensures P Q p
      → ((a : A) (w : World) → p ≡ (ok a, w) → P a w → Ensures R Q (f a w))
      → Ensures R Q (resume p.0 f p.1)
  resume-Ensures_from P R Q (ok a, w) f h k = k a w refl h
  resume-Ensures_from P R Q (err e, w) f h k = h
  resume-Ensures_from P R Q (stuck, w) f h k = h

-- A choice, by its test.
pub if-Ensures :
    {A : Type 0} (P : A → World → Type 0) (Q : World → Type 0) (b : Bool) (m n : Action A)
    (w : World)
    → ((b ≡ true) → Ensures P Q (m w))
    → ((b ≡ false) → Ensures P Q (n w))
    → Ensures P Q ((if b then m else n) w)
if-Ensures P Q true m n w h k = h refl
if-Ensures P Q false m n w h k = k refl

on_disk-result :
    {A : Type 0} (P : A → Files → Type 0) (Q : Files → Type 0) (p : Result IoError A × Disk)
    (w : World)
    → Does P Q p
    → Ensures
        (λ a w'. P a w'.disk.files)
        (λ w'. Q w'.disk.files)
        (map_err from_io p.0, record w { disk = p.1 })
on_disk-result P Q (ok a, d) w h = h
on_disk-result P Q (err e, d) w h = h
on_disk-result P Q (stuck, d) w h = h

-- A call on files.
pub on_disk-Ensures :
    {A : Type 0} (P : A → Files → Type 0) (Q : Files → Type 0) (m : Fs A) (w : World)
    → Does P Q (m w.disk)
    → Ensures (λ a w'. P a w'.disk.files) (λ w'. Q w'.disk.files) (on_disk m w)
on_disk-Ensures P Q m w h = on_disk-result P Q (m w.disk) w h

-- A call on files leaves the connection as it is.
on_disk-result_wire :
    {A : Type 0} (P : A → Files → Type 0) (Q : Files → Type 0) (R : Wire → Type 0)
    (p : Result IoError A × Disk) (w : World)
    → R w.wire
    → Does P Q p
    → Ensures
        (λ a w'. P a w'.disk.files × R w'.wire)
        (λ w'. Q w'.disk.files)
        (map_err from_io p.0, record w { disk = p.1 })
on_disk-result_wire P Q R (ok a, d) w r h = (h, r)
on_disk-result_wire P Q R (err e, d) w r h = h
on_disk-result_wire P Q R (stuck, d) w r h = h

pub on_disk-Ensures_wire :
    {A : Type 0} (P : A → Files → Type 0) (Q : Files → Type 0) (R : Wire → Type 0) (m : Fs A)
    (w : World)
    → R w.wire
    → Does P Q (m w.disk)
    → Ensures (λ a w'. P a w'.disk.files × R w'.wire) (λ w'. Q w'.disk.files) (on_disk m w)
on_disk-Ensures_wire P Q R m w r h = on_disk-result_wire P Q R (m w.disk) w r h
