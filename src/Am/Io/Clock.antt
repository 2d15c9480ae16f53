-- ===== src/Am/Io/Clock.antt =====
-- `timer_rtc` of abstract-machine/am/src/x86/qemu/ioe.c on a clock that keeps its time in BCD.
use njuoslab_l1_kmalloc_kfre.Base.{
  ℕ, suc, ◌+◌, ◌*◌, ◌/◌, ◌%◌, ◌<◌, ◌≡◌, refl, sym, ap, ◌∙◌, arith, some, eq→==,
}
use njuoslab_l1_kmalloc_kfre.Am.Io.{Ports, Rtc, read_rtc, read_rtc_async, timer_rtc}

-- Two digits of four bits each.
abbrev pub bcd : ℕ → ℕ
bcd n = n / 10 * 16 + n % 10

-- The documented interface of the clock: a register that is selected at port 0x70 is read in BCD at port
-- 0x71. Here no second passes meanwhile.
pub record IsClock {D : Type 0} (io : Ports D) (clock : D → ℕ → ℕ) : Type 0 where
  pub digits : (d : D) (reg : ℕ) → clock d reg < 100
  pub reads : (d : D) (reg : ℕ) → (io.inb 0x71 (io.outb 0x70 reg d)).0 ≡ bcd (clock d reg)
  pub stands : (d : D) (reg r : ℕ) → clock (io.inb 0x71 (io.outb 0x70 reg d)).1 r ≡ clock d r

-- The date that a clock shows.
abbrev pub date : (ℕ → ℕ) → Rtc
date clock = record {
  second = clock 0;
  minute = clock 2;
  hour = clock 4;
  day = clock 7;
  month = clock 8;
  year = clock 9 + 2000;
}

module _ {D : Type 0} (io : Ports D) (clock : D → ℕ → ℕ) (ok : IsClock io clock) where
  read_rtc-clock : (reg : ℕ) (d : D) → (read_rtc io reg d).0 ≡ clock d reg
  unfolding read_rtc
  read_rtc-clock reg d =
      let small = ok.digits d reg in
      ap (λ ret. ret % 16 + ret / 16 * 10) (ok.reads d reg) ∙ omega arith

  read_rtc-stands : (reg r : ℕ) (d : D) → clock (read_rtc io reg d).1 r ≡ clock d r
  unfolding read_rtc
  read_rtc-stands reg r d = ok.stands d reg r

  -- The states between the six reads.
  module _ (d : D) where
    abbrev d1 : D
    d1 = (read_rtc io 0 d).1

    abbrev d2 : D
    d2 = (read_rtc io 2 d1).1

    abbrev d3 : D
    d3 = (read_rtc io 4 d2).1

    abbrev d4 : D
    d4 = (read_rtc io 7 d3).1

    abbrev d5 : D
    d5 = (read_rtc io 8 d4).1

    abbrev d6 : D
    d6 = (read_rtc io 9 d5).1

    s1 : (r : ℕ) → clock d1 r ≡ clock d r
    s1 r = read_rtc-stands 0 r d

    s2 : (r : ℕ) → clock d2 r ≡ clock d r
    s2 r = read_rtc-stands 2 r d1 ∙ s1 r

    s3 : (r : ℕ) → clock d3 r ≡ clock d r
    s3 r = read_rtc-stands 4 r d2 ∙ s2 r

    s4 : (r : ℕ) → clock d4 r ≡ clock d r
    s4 r = read_rtc-stands 7 r d3 ∙ s3 r

    s5 : (r : ℕ) → clock d5 r ≡ clock d r
    s5 r = read_rtc-stands 8 r d4 ∙ s4 r

    read_rtc_async-stands : (r : ℕ) → clock (read_rtc_async io d).1 r ≡ clock d r
    unfolding read_rtc_async
    read_rtc_async-stands r = read_rtc-stands 9 r d5 ∙ s5 r

    read_rtc_async-date : (read_rtc_async io d).0 ≡ date (clock d)
    unfolding read_rtc_async
    read_rtc_async-date =
        rw
          (
            read_rtc-clock 0 d,
            read_rtc-clock 2 d1 ∙ s1 2,
            read_rtc-clock 4 d2 ∙ s2 4,
            read_rtc-clock 7 d3 ∙ s3 7,
            read_rtc-clock 8 d4 ∙ s4 8,
            read_rtc-clock 9 d5 ∙ s5 9,
          )
          refl

  timer_rtc-same :
      (k : ℕ) (d : D)
      → (read_rtc io 0 (read_rtc_async io d).1).0 ≡ (read_rtc_async io d).0.second
      → timer_rtc io (suc k) d
        ≡ some ((read_rtc_async io d).0, (read_rtc io 0 (read_rtc_async io d).1).1)
  unfolding timer_rtc
  timer_rtc-same k d same =
      rw
        (
          timer_rtc,
          eq→== (read_rtc io 0 (read_rtc_async io d).1).0 (read_rtc_async io d).0.second same,
        )
        refl

  -- `timer_rtc` returns the date that the clock shows in its first round, if no second passes meanwhile.
  pub timer_rtc-date :
      (k : ℕ) (d : D) → (d' : D) × (timer_rtc io (suc k) d ≡ some (date (clock d), d'))
  timer_rtc-date k d =
      let same =
        read_rtc-clock 0 (read_rtc_async io d).1
        ∙ read_rtc_async-stands d 0
        ∙ sym (ap (λ t. t.second) (read_rtc_async-date d)) in
      (
        (read_rtc io 0 (read_rtc_async io d).1).1,
        timer_rtc-same k d same
            ∙ ap (λ t. some (t, (read_rtc io 0 (read_rtc_async io d).1).1)) (read_rtc_async-date d),
      )
