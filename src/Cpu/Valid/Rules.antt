-- ===== src/Cpu/Valid/Rules.antt =====
-- Rules for `Gives`, one for each way in which a function of the model is put together.
use z80_trace.Common.{Bool, true, false, ◌≡◌, refl, if◌then◌else◌}
use z80_trace.Cpu.State.{StateZ80}
use z80_trace.Cpu.Monad.{Cpu, OnState, ◌>>=◌, ◌>>◌, pure, gets, modify, lift, when}
use z80_trace.Cpu.Valid.Defs.{IsState, Gives, Any}

module _ {U : Type 0} where
  pub Gives-pure : {A : Type 0} {P : A → Type 0} (x : A) → P x → Gives {U = U} P (pure x)
  unfolding pure
  Gives-pure x h = record { run = λ m v. (h, v) }

  pub Gives-gets :
      {A : Type 0} {P : A → Type 0} (g : StateZ80 U → A)
      → ((s : StateZ80 U) → IsState s → P (g s))
      → Gives P (gets g)
  unfolding gets
  Gives-gets g h = record { run = λ m v. (h m.state v.state_ok, v) }

  pub Gives-modify :
      {g : StateZ80 U → StateZ80 U}
      → ((s : StateZ80 U) → IsState s → IsState (g s))
      → Gives Any (modify g)
  unfolding modify
  Gives-modify h = record {
    run = λ m v. (tt, record { state_ok = h m.state v.state_ok; events_ok = v.events_ok });
  }

  pub Gives-lift :
      {A : Type 0} {P : A → Type 0} (g : OnState U A)
      → ((s : StateZ80 U) → IsState s → P (g s).0 × IsState (g s).1)
      → Gives P (lift g)
  unfolding lift
  Gives-lift g h = record {
    run = λ m v.
        let (hx, hs) = h m.state v.state_ok in
        (hx, record { state_ok = hs; events_ok = v.events_ok });
  }

  pub Gives-if :
      {A : Type 0} {P : A → Type 0} {p q : Cpu U A} (b : Bool)
      → Gives P p
      → Gives P q
      → Gives P (if b then p else q)
  Gives-if true hp hq = hp
  Gives-if false hp hq = hq

  -- A choice, with what was tested.
  pub Gives-test :
      {A : Type 0} {P : A → Type 0} {p q : Cpu U A} (b : Bool)
      → (b ≡ true → Gives P p)
      → (b ≡ false → Gives P q)
      → Gives P (if b then p else q)
  Gives-test true hp hq = hp refl
  Gives-test false hp hq = hq refl

  pub Gives-when : {p : Cpu U (Unit {0})} (b : Bool) → Gives Any p → Gives Any (when b p)
  unfolding when
  Gives-when b hp = Gives-if b hp (Gives-pure tt tt)

  -- A step after another, with and without a value that is handed on.
  infixr 4 ◌▶◌ ◌▷◌
  pub ◌▶◌ :
      {A B : Type 0} {P : A → Type 0} {Q : B → Type 0} {p : Cpu U A} {k : A → Cpu U B}
      → Gives P p
      → ((x : A) → P x → Gives Q (k x))
      → Gives Q (p >>= k)
  unfolding ◌>>=◌
  ◌▶◌ {p} hp hk = record {
    run = λ m v. let (hx, v') = hp.run m v in (hk (p m).0 hx).run (p m).1 v';
  }

  pub ◌▷◌ :
      {A B : Type 0} {P : A → Type 0} {Q : B → Type 0} {p : Cpu U A} {q : Cpu U B}
      → Gives P p
      → Gives Q q
      → Gives Q (p >> q)
  unfolding ◌>>◌
  ◌▷◌ {p} hp hq = record { run = λ m v. hq.run (p m).1 (hp.run m v).1 }
