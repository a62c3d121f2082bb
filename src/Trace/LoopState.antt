-- ===== src/Trace/LoopState.antt =====
-- src/main.cpp, lines 82-109 and 622-651: the part of the processor that the loop detection compares.
-- The record has no padding, so `memcmp` of two is the comparison of their fields.
use z80_trace.Common.{ℕ, Bool, ◌&&◌, ◌==◌}
use z80_trace.Cpu.State.{StateZ80}

pub record LoopState : Type 0 where
  pub pc : ℕ
  pub sp : ℕ
  pub a : ℕ
  pub f : ℕ
  pub a_alt : ℕ
  pub f_alt : ℕ
  pub b : ℕ
  pub c : ℕ
  pub b_alt : ℕ
  pub c_alt : ℕ
  pub d : ℕ
  pub e : ℕ
  pub d_alt : ℕ
  pub e_alt : ℕ
  pub h : ℕ
  pub l : ℕ
  pub h_alt : ℕ
  pub l_alt : ℕ
  pub ix : ℕ
  pub iy : ℕ
  pub i : ℕ
  pub r : ℕ
  pub im : ℕ
  pub iff1 : ℕ
  pub iff2 : ℕ
  pub halted : ℕ

unfoldable pub capture_loop_state : {U : Type 0} → StateZ80 U → LoopState
capture_loop_state s = record {
  pc = s.pc;
  sp = s.sp;
  a = s.a;
  f = s.f;
  a_alt = s.a_alt;
  f_alt = s.f_alt;
  b = s.b;
  c = s.c;
  b_alt = s.b_alt;
  c_alt = s.c_alt;
  d = s.d;
  e = s.e;
  d_alt = s.d_alt;
  e_alt = s.e_alt;
  h = s.h;
  l = s.l;
  h_alt = s.h_alt;
  l_alt = s.l_alt;
  ix = s.ix;
  iy = s.iy;
  i = s.i;
  r = s.r;
  im = s.im;
  iff1 = s.iff1;
  iff2 = s.iff2;
  halted = s.halted;
}

-- `memcmp(…) == 0`.
unfoldable pub same_loop_state : LoopState → LoopState → Bool
same_loop_state x y =
    x.pc == y.pc
    && x.sp == y.sp
    && x.a == y.a
    && x.f == y.f
    && x.a_alt == y.a_alt
    && x.f_alt == y.f_alt
    && x.b == y.b
    && x.c == y.c
    && x.b_alt == y.b_alt
    && x.c_alt == y.c_alt
    && x.d == y.d
    && x.e == y.e
    && x.d_alt == y.d_alt
    && x.e_alt == y.e_alt
    && x.h == y.h
    && x.l == y.l
    && x.h_alt == y.h_alt
    && x.l_alt == y.l_alt
    && x.ix == y.ix
    && x.iy == y.iy
    && x.i == y.i
    && x.r == y.r
    && x.im == y.im
    && x.iff1 == y.iff1
    && x.iff2 == y.iff2
    && x.halted == y.halted
