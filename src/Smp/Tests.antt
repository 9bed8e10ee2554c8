-- ===== src/Smp/Tests.antt =====
-- A table of three entries read, and its processors started.
use myos_git.Prelude.{
  ℕ, ◌*◌, ◌≡◌, refl, none, some, [], ◌∷◌, ◌==◌, ltb, if◌then◌else◌, arith, range,
}
use myos_git.Smp.{Cores, init_mp_config, startup_smp, maxcpus, find_smp_config}
use myos_git.Smp.Listed.{processor, io_apic, stored, init_mp_config-ids, pointer_at}
use myos_git.Smp.Started.{sent_by, woken, startup_smp-woken}

-- The pointer structure stands at 16, the table at 64 and the entries at 108.
abbrev bios : ℕ → ℕ
bios a =
    if a == 16
    then b'_'
    else if a == 17
    then b'M'
    else if a == 18
    then b'P'
    else if a == 19
    then b'_'
    else if a == 20
    then 64
    else if a == 98
    then 3
    else if a == 128
    then 2
    else if a == 137
    then 1
    else 0

pointer_found : pointer_at bios ≡ some 16
unfolding find_smp_config
pointer_found = refl

init_mp_config-ids_example : init_mp_config bios (record { lapic_ids = λ i. 0; numcores = 0 }) ≡ (
    if ltb maxcpus 2
    then none
    else some (record { lapic_ids = stored (0 ∷ 1 ∷ []) 0 (λ i. 0); numcores = 2 }))
init_mp_config-ids_example =
    init_mp_config-ids bios (λ i. 0) 16 (processor 0 ∷ io_apic ∷ processor 1 ∷ []) pointer_found
      refl (refl, refl, (refl, (refl, refl, tt)))

-- The processor that runs has the number 0, and the second one the number 4.
abbrev two_cores : Cores
two_cores = record { lapic_ids = λ i. i * 4; numcores = 2 }

startup_smp-woken_example :
    sent_by (startup_smp 0 two_cores []) ≡ woken 0 (λ i. i * 4) (range 0 2) (sent_by [])
startup_smp-woken_example = startup_smp-woken 0 two_cores [] (omega arith)
