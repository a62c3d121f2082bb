-- ===== src/Cpu/Advance/Rules.antt =====
-- A function that moves the program counter by `n`, and the rules for the ways in which a function
-- of the model is put together.
use z80_trace.Common.{ℕ, ◌+◌, Bool, true, false, if◌then◌else◌, u16, ◌≡◌, sym, ◌∙◌, arith}
use z80_trace.Cpu.State.{StateZ80, Machine}
use z80_trace.Cpu.Monad.{Cpu, OnState, ◌>>=◌, ◌>>◌, pure, gets, modify, lift, when}
use z80_trace.Cpu.Valid.Defs.{IsWord}

pub record Advances {U A : Type 0} (n : ℕ) (p : Cpu U A) : Type 0 where
  pub run : (m : Machine U) → IsWord m.state.pc → (p m).1.state.pc ≡ u16 (m.state.pc + n)

stays : (pc : ℕ) → IsWord pc → pc ≡ u16 (pc + 0)
stays pc h = omega arith

moves_twice :
    (a b pc pc' pc'' : ℕ) → pc' ≡ u16 (pc + a) → pc'' ≡ u16 (pc' + b) → pc'' ≡ u16 (pc + (a + b))
moves_twice a b pc pc' pc'' h1 h2 = omega arith

moved-IsWord : (pc n : ℕ) → IsWord (u16 (pc + n))
moved-IsWord pc n = omega arith

module _ {U : Type 0} where
  -- The number may be written in another way.
  pub Advances-by : {A : Type 0} {a b : ℕ} {p : Cpu U A} → a ≡ b → Advances a p → Advances b p
  Advances-by {p} same hp = rw (sym same) hp

  pub Advances-pure : {A : Type 0} (x : A) → Advances {U = U} 0 (pure x)
  unfolding pure
  Advances-pure x = record { run = λ m h. stays m.state.pc h }

  pub Advances-gets : {A : Type 0} (g : StateZ80 U → A) → Advances 0 (gets g)
  unfolding gets
  Advances-gets g = record { run = λ m h. stays m.state.pc h }

  pub Advances-modify :
      (g : StateZ80 U → StateZ80 U) → ((s : StateZ80 U) → (g s).pc ≡ s.pc) → Advances 0 (modify g)
  unfolding modify
  Advances-modify g same = record { run = λ m h. same m.state ∙ stays m.state.pc h }

  pub Advances-lift :
      {A : Type 0} (g : OnState U A) → ((s : StateZ80 U) → (g s).1.pc ≡ s.pc) → Advances 0 (lift g)
  unfolding lift
  Advances-lift g same = record { run = λ m h. same m.state ∙ stays m.state.pc h }

  pub Advances-if :
      {A : Type 0} {a c : ℕ} {p q : Cpu U A} (b : Bool)
      → Advances a p
      → Advances c q
      → Advances (if b then a else c) (if b then p else q)
  Advances-if true hp hq = hp
  Advances-if false hp hq = hq

  -- Both branches move it alike.
  pub Advances-either :
      {A : Type 0} {n : ℕ} {p q : Cpu U A} (b : Bool)
      → Advances n p
      → Advances n q
      → Advances n (if b then p else q)
  Advances-either true hp hq = hp
  Advances-either false hp hq = hq

  pub Advances-when : {p : Cpu U (Unit {0})} (b : Bool) → Advances 0 p → Advances 0 (when b p)
  unfolding when
  Advances-when b hp = Advances-either b hp (Advances-pure tt)

  infixr 4 ◌⊳◌ ◌⊳⊳◌
  pub ◌⊳◌ :
      {A B : Type 0} {a b : ℕ} {p : Cpu U A} {k : A → Cpu U B}
      → Advances a p
      → ((x : A) → Advances b (k x))
      → Advances (a + b) (p >>= k)
  unfolding ◌>>=◌
  ◌⊳◌ {a} {b} {p} {k} hp hk = record {
    run = λ m h.
        let first : (p m).1.state.pc ≡ u16 (m.state.pc + a) = hp.run m h in
        moves_twice a b m.state.pc (p m).1.state.pc (k (p m).0 (p m).1).1.state.pc first
          ((hk (p m).0).run (p m).1 (rw first (moved-IsWord m.state.pc a)));
  }

  pub ◌⊳⊳◌ :
      {A B : Type 0} {a b : ℕ} {p : Cpu U A} {q : Cpu U B}
      → Advances a p
      → Advances b q
      → Advances (a + b) (p >> q)
  unfolding ◌>>◌
  ◌⊳⊳◌ {a} {b} {p} {q} hp hq = record {
    run = λ m h.
        let first : (p m).1.state.pc ≡ u16 (m.state.pc + a) = hp.run m h in
        moves_twice a b m.state.pc (p m).1.state.pc (q (p m).1).1.state.pc first
          (hq.run (p m).1 (rw first (moved-IsWord m.state.pc a)));
  }
