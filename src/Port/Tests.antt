-- ===== src/Port/Tests.antt =====
-- The drivers run on devices that obey.
use myos_git.Prelude.{◌==◌, if◌then◌else◌, ℕ, ◌+◌, ◌≡◌, refl, [], ◌∷◌}
use myos_git.Port.{Device, Machine, wrote}
use myos_git.Port.Pic.{init_pic, master_pic_data, master_pic_cmd, slave_pic_cmd}
use myos_git.Port.Pic.Masks.{chip_of, IsControlled, init_pic-IsOpen}
use myos_git.Port.Pit.{init_pit}

abbrev machine : Machine
machine = record { log = []; mem = λ a. 0 }

-- Controllers that answer their masks.
abbrev controllers : Device
controllers = record {
  byte = λ log port.
      if port == master_pic_data
      then (chip_of master_pic_cmd log).mask
      else (chip_of slave_pic_cmd log).mask;
  block = λ log port i. 0;
}

controllers-IsControlled : IsControlled controllers
controllers-IsControlled = record { master = λ log. refl; slave = λ log. refl }

init_pic-IsOpen_example :
    (chip_of master_pic_cmd (init_pic controllers machine).log
      ≡ record { expected = 0; mask = 0xf8 })
    × (chip_of slave_pic_cmd (init_pic controllers machine).log
        ≡ record { expected = 0; mask = 0xff })
init_pic-IsOpen_example = init_pic-IsOpen controllers machine controllers-IsControlled

-- The timer is given the low 16 bits of the divisor, 13534.
init_pit_test : (init_pit machine).log ≡ wrote 0x40 0x34 ∷ wrote 0x40 0xde ∷ wrote 0x43 0x34 ∷ []
unfolding init_pit
init_pit_test = refl

abbrev sectors : ℕ → ℕ → ℕ
sectors lba i = lba + i
