-- ===== src/Factory/Builtins.antt =====
-- src/monitor_framework.cpp: what the registry finds, and what the built-in factories make.
use mathlib.Core.List.{Permᴰ, Memᴰ}
use phm.Base.{
  ◌≡◌, refl, ◌∙◌, ap, subst, List, [], ◌∷◌, Option, none, some, Text, if◌then◌else◌, arith, false,
  All, ◌<◌, ◌⊎◌, inl, inr,
}
use phm.Types.{
  MonitorType, MonitorConfig, Doubles, same_type, monitor_type_to_index, process_lifecycle,
  resource, deadlock, alive, custom,
}
use phm.Monitors.Builtin.{Builtin}
use phm.Monitors.Lifecycle
use phm.Monitors.Resource
use phm.Monitors.Deadlock
use phm.Monitors.Alive
use phm.Factory.{
  FactoryRegistry, register_factory, find_factory, registered_types, create, builtin_factories,
  register_all,
}

-- The types rise strictly.
abbrev pub AreRising : List MonitorType → Type 0
AreRising [] = Unit {0}
AreRising (t ∷ ts) = All (λ u. monitor_type_to_index t < monitor_type_to_index u) ts × AreRising ts

All-Perm : {A : Type 0} (P : A → Type 0) {l m : List A} → Permᴰ l m → All P l → All P m
All-Perm P Permᴰ.nil h = tt
All-Perm P (Permᴰ.cons e p) h = (subst P e h.0, All-Perm P p h.1)
All-Perm P (Permᴰ.swap e e') h = (subst P e' h.1.0, (subst P e h.0, h.1.1))
All-Perm P (Permᴰ.trans p q) h = All-Perm P q (All-Perm P p h)

below_every :
    (b t : MonitorType) (ts : List MonitorType)
    → monitor_type_to_index b < monitor_type_to_index t
    → All (λ u. monitor_type_to_index t < monitor_type_to_index u) ts
    → All (λ u. monitor_type_to_index b < monitor_type_to_index u) ts
below_every b t [] h a = tt
below_every b t (u ∷ ts) h a = (omega (arith, h, a.0), below_every b t ts h a.1)

Mem-Perm : {A : Type 0} {x : A} {l m : List A} → Permᴰ l m → Memᴰ x l → Memᴰ x m
Mem-Perm Permᴰ.nil h = elim h [ ]
Mem-Perm (Permᴰ.cons e p) (Memᴰ.head q) = Memᴰ.head (q ∙ e)
Mem-Perm (Permᴰ.cons e p) (Memᴰ.tail h) = Memᴰ.tail (Mem-Perm p h)
Mem-Perm (Permᴰ.swap e e') (Memᴰ.head q) = Memᴰ.tail (Memᴰ.head (q ∙ e))
Mem-Perm (Permᴰ.swap e e') (Memᴰ.tail (Memᴰ.head q)) = Memᴰ.head (q ∙ e')
Mem-Perm (Permᴰ.swap e e') (Memᴰ.tail (Memᴰ.tail h)) = Memᴰ.tail (Memᴰ.tail h)
Mem-Perm (Permᴰ.trans p q) h = Mem-Perm q (Mem-Perm p h)

module _ {F : Type 0} where
  find_factory-register_factory :
      (t u : MonitorType) (f : F) (reg : FactoryRegistry F)
      → find_factory u (register_factory t f reg)
        ≡ (if same_type t u then some f else find_factory u reg)
  unfolding find_factory register_factory
  find_factory-register_factory t u f [] = refl
  find_factory-register_factory t u f ((v, g) ∷ reg) =
      ground (arith, find_factory-register_factory t u f reg)

  -- A registration of another type, or of this factory.
  abbrev Agrees : MonitorType → F → MonitorType × F → Type 0
  Agrees t f e = (same_type e.0 t ≡ false) ⊎ (e.1 ≡ f)

  register_all-other :
      (t : MonitorType) (l : List (MonitorType × F)) (reg : FactoryRegistry F)
      → All (λ e. same_type e.0 t ≡ false) l
      → find_factory t (register_all l reg) ≡ find_factory t reg
  unfolding register_all
  register_all-other t [] reg h = refl
  register_all-other t ((u, g) ∷ l) reg h =
      register_all-other t l (register_factory u g reg) h.1
      ∙ (find_factory-register_factory u t g reg ∙ ground arith)

  register_all-kept :
      (t : MonitorType) (f : F) (l : List (MonitorType × F)) (reg : FactoryRegistry F)
      → All (Agrees t f) l
      → find_factory t reg ≡ some f
      → find_factory t (register_all l reg) ≡ some f
  unfolding register_all
  register_all-kept t f [] reg h e = e
  register_all-kept t f ((u, g) ∷ l) reg h e =
      register_all-kept t f l (register_factory u g reg) h.1
        (ground (arith, find_factory-register_factory u t g reg))

  register_all-found :
      (t : MonitorType) (f : F) {l : List (MonitorType × F)} (reg : FactoryRegistry F)
      → Memᴰ (t, f) l
      → All (Agrees t f) l
      → find_factory t (register_all l reg) ≡ some f
  unfolding register_all
  register_all-found t f {l = []} reg m h = elim m [ ]
  register_all-found t f {l = (u, g) ∷ l} reg (Memᴰ.head e) h =
      register_all-kept t f l (register_factory u g reg) h.1
        (ground (arith, find_factory-register_factory u t g reg, ap (λ x. x.0) e, ap (λ x. x.1) e))
  register_all-found t f {l = (u, g) ∷ l} reg (Memᴰ.tail m) h =
      register_all-found t f (register_factory u g reg) m h.1

  above-register_factory :
      (b t : MonitorType) (f : F) (reg : FactoryRegistry F)
      → monitor_type_to_index b < monitor_type_to_index t
      → All (λ u. monitor_type_to_index b < monitor_type_to_index u) (registered_types reg)
      → All
          (λ u. monitor_type_to_index b < monitor_type_to_index u)
          (registered_types (register_factory t f reg))
  unfolding register_factory registered_types
  above-register_factory b t f [] h a = (h, tt)
  above-register_factory b t f ((u, g) ∷ reg) h a =
      ground (arith, above-register_factory b t f reg h a.1)

  register_factory-AreRising :
      (t : MonitorType) (f : F) (reg : FactoryRegistry F)
      → AreRising (registered_types reg)
      → AreRising (registered_types (register_factory t f reg))
  unfolding register_factory registered_types
  register_factory-AreRising t f [] r = (tt, tt)
  register_factory-AreRising t f ((u, g) ∷ reg) r = ground (
    arith,
    register_factory-AreRising t f reg r.1,
    above-register_factory u t f reg,
    below_every t u (registered_types reg),
  )

  register_all-AreRising :
      (l : List (MonitorType × F)) (reg : FactoryRegistry F)
      → AreRising (registered_types reg)
      → AreRising (registered_types (register_all l reg))
  unfolding register_all
  register_all-AreRising [] reg r = r
  register_all-AreRising ((t, f) ∷ l) reg r =
      register_all-AreRising l (register_factory t f reg) (register_factory-AreRising t f reg r)

module _ {D : Type 0} (d : Doubles D) where
  -- The monitor that a type stands for.
  unfoldable pub made : MonitorType → Text → MonitorConfig D → Option (Builtin D)
  made process_lifecycle name cfg = some (Builtin.lifecycle (Lifecycle.create name cfg))
  made resource name cfg = some (Builtin.resource (Resource.create d name cfg))
  made deadlock name cfg = some (Builtin.deadlock (Deadlock.create name cfg))
  made alive name cfg = some (Builtin.alive (Alive.create name cfg))
  made custom name cfg = none

  abbrev Factory : Type 0
  Factory = Text → MonitorConfig D → Builtin D

  create-found :
      (l : List (MonitorType × Factory)) (t : MonitorType) (f : Factory) (name : Text)
      (cfg : MonitorConfig D)
      → Permᴰ (builtin_factories d) l
      → Memᴰ (t, f) (builtin_factories d)
      → All (Agrees t f) (builtin_factories d)
      → create (register_all l []) t name cfg ≡ some (f name cfg)
  unfolding create
  create-found l t f name cfg p m a =
      rw (register_all-found t f [] (Mem-Perm p m) (All-Perm (Agrees t f) p a), create) refl

  create-made :
      (l : List (MonitorType × Factory)) (t : MonitorType) (name : Text) (cfg : MonitorConfig D)
      → Permᴰ (builtin_factories d) l
      → create (register_all l []) t name cfg ≡ made t name cfg
  unfolding create made builtin_factories find_factory
  create-made l process_lifecycle name cfg p =
      create-found l process_lifecycle _ name cfg p (Memᴰ.tail (Memᴰ.tail (Memᴰ.head refl)))
        (inl refl, (inl refl, (inr refl, (inl refl, tt))))
  create-made l resource name cfg p =
      create-found l resource _ name cfg p (Memᴰ.tail (Memᴰ.tail (Memᴰ.tail (Memᴰ.head refl))))
        (inl refl, (inl refl, (inl refl, (inr refl, tt))))
  create-made l deadlock name cfg p =
      create-found l deadlock _ name cfg p (Memᴰ.tail (Memᴰ.head refl))
        (inl refl, (inr refl, (inl refl, (inl refl, tt))))
  create-made l alive name cfg p =
      create-found l alive _ name cfg p (Memᴰ.head refl)
        (inr refl, (inl refl, (inl refl, (inl refl, tt))))
  create-made l custom name cfg p =
      rw
        (
          register_all-other custom l []
              (All-Perm (λ e. same_type e.0 custom ≡ false) p (refl, (refl, (refl, (refl, tt))))),
          create,
          find_factory,
        )
        refl

  -- In whatever order the static initialisers of the files run, create then makes the built-in
  -- monitor of each type, under the name and with the configuration given, and none for CUSTOM; and
  -- registeredTypes lists the types in rising order.
  pub create-register_all :
      (l : List (MonitorType × Factory)) (t : MonitorType) (name : Text) (cfg : MonitorConfig D)
      → Permᴰ (builtin_factories d) l
      → (create (register_all l []) t name cfg ≡ made t name cfg)
        × AreRising (registered_types (register_all l []))
  unfolding registered_types
  create-register_all l t name cfg p = (create-made l t name cfg p, register_all-AreRising l [] tt)
