-- ===== src/Timer/Line.antt =====
-- The timer gives the interrupt controllers its vector where they want a line.
use titanix.Ports.{Ports}
use titanix.Base.{ℕ, ◌<◌, ◌≤◌, ◌≡◌, refl, Bool, true, false}
use titanix.Pic.Masks.{Registers, IsData}
use titanix.Pic.Lines.{pic_mask_irq-kept, pic_unmask_irq-kept}
use titanix.Timer.{Machine, pit_disable, unmask_line, mask_line}

-- Where the two data ports of the interrupt controllers read back what was written, and with the
-- timer on a vector from 16 to 38: neither `pit_disable` nor the two calls of the interrupt
-- controllers in `pit_deadline` change what either data port reads, so the line of the timer is
-- masked or not as it was before.
pub pit-masks_kept :
    (P : Ports) (r : Registers P) (m : Machine P) (q : ℕ) (first : Bool)
    → IsData q
    → 16 ≤ m.timer.pit_vector
    → m.timer.pit_vector < 39
    → ((P.inb q (pit_disable P m).ports).0 ≡ (P.inb q m.ports).0)
      × ((P.inb q (unmask_line P first m).ports).0 ≡ (P.inb q m.ports).0)
      × ((P.inb q (mask_line P m).ports).0 ≡ (P.inb q m.ports).0)
unfolding pit_disable unmask_line mask_line
pit-masks_kept P r m q true d low high =
    let v = m.timer.pit_vector in
    (
      pic_mask_irq-kept P r v q m.ports d low high,
      pic_unmask_irq-kept P r v q m.ports d low high,
      pic_mask_irq-kept P r v q m.ports d low high,
    )
pit-masks_kept P r m q false d low high =
    let v = m.timer.pit_vector in
    (
      pic_mask_irq-kept P r v q m.ports d low high,
      refl,
      pic_mask_irq-kept P r v q m.ports d low high,
    )
