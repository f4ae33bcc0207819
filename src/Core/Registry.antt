-- ===== src/Core/Registry.antt =====
-- internal/core/registry.go, module.go: the registered modules and the parts of their ids. The
-- panics of RegisterModule, which stop the program at its start, are results.
use Prim.Native.Char.{Char}
use Prim.Native.String.{[] as empty_text, ◌∷◌ as text_cons, ◌++◌}
use Prim.Native.String.append.{nil, cons}
use sclaw.Prelude.{
  ◌≡◌, refl, sym, ap, ◌∙◌, String, Bool, true, false, ◌||◌, Option, none, some, ◌≢◌, ◌⊎◌, inl, inr,
  if◌then◌else◌, is_yes, String-discrete, Bool-cases, arith,
}
use sclaw.Prelude.Dict.{Dict, lookup, insert, lookup-insert_self, lookup-insert_ne}

-- ModuleInfo; M is what New makes, which may be nil.
pub record ModuleInfo (M : Type 0) : Type 0 where
  pub id : String
  pub new_module : Option M

pub data RegisterPanic : Type 0 where
  empty_id nil_new already_registered : RegisterPanic

module _ {M : Type 0} where
  -- RegisterModule: the registry, or the panic.
  unfoldable pub register_module :
      ModuleInfo M → Dict String (ModuleInfo M) → RegisterPanic ⊎ Dict String (ModuleInfo M)
  register_module info modules =
      if is_yes (String-discrete info.id "") then inl empty_id else elim info.new_module [
        | none ↦ inl nil_new
        | some make ↦ elim (lookup String-discrete info.id modules) [
          | some old ↦ inl already_registered
          | none ↦ inr (insert String-discrete info.id info modules)
        ]
      ]

  -- GetModule
  abbrev pub get_module_info : String → Dict String (ModuleInfo M) → Option (ModuleInfo M)
  get_module_info id modules = lookup String-discrete id modules

unfoldable pub is_dot : Char → Bool
is_dot c = is_yes (String-discrete (text_cons c "") ".")

-- strings.Contains of a dot
unfoldable pub has_dot : String → Bool
has_dot empty_text = false
has_dot (text_cons c s) = is_dot c || has_dot s

-- Namespace
unfoldable pub namespace : String → String
unfolding has_dot
namespace empty_text = ""
namespace (text_cons c s) = let rest = namespace s in if has_dot s then text_cons c rest else ""

-- Name
unfoldable pub name : String → String
unfolding has_dot
name empty_text = ""
name (text_cons c s) =
    let rest = name s in if has_dot s then rest else if is_dot c then s else text_cons c s

-- The name of an id has no dot.
pub name-has_dot : (id : String) → has_dot (name id) ≡ false
unfolding has_dot name
name-has_dot empty_text = refl
name-has_dot (text_cons c s) = ground (arith, name-has_dot s)

-- An id without a dot is its own name, in no namespace.
pub name-plain : (id : String) → has_dot id ≡ false → (name id ≡ id) × (namespace id ≡ "")
unfolding has_dot name namespace
name-plain empty_text h = (refl, refl)
name-plain (text_cons c s) h = (ground (arith, h), ground (arith, h))

is_dot-eq : (c : Char) → is_dot c ≡ true → text_cons c "" ≡ "."
unfolding is_dot
is_dot-eq c h = ground (arith, h)

at_dot : (c : Char) (s : String) → is_dot c ≡ true → "" ++ "." ++ s ≡ text_cons c s
at_dot c s h =
    nil ("." ++ s) ∙ sym (ap (λ t. t ++ s) (is_dot-eq c h)) ∙ cons c "" s ∙ ap (text_cons c) (nil s)

-- An id with a dot is its namespace, a dot and its name.
pub namespace-name : (id : String) → has_dot id ≡ true → namespace id ++ "." ++ name id ≡ id
unfolding has_dot name namespace
namespace-name empty_text h = ground (arith, h)
namespace-name (text_cons c s) h = elim (Bool-cases (has_dot s)) [
  | inl d ↦ rw (d) (cons c (namespace s) ("." ++ name s) ∙ ap (text_cons c) (namespace-name s d))
  | inr n ↦ elim (Bool-cases (is_dot c)) [
    | inl d ↦ rw (n, d) (at_dot c s d)
    | inr m ↦ ground (arith, h, n, m)
  ]
]

module _ {M : Type 0} where
  registered :
      (info : ModuleInfo M) (modules after : Dict String (ModuleInfo M))
      → register_module info modules ≡ inr after
      → (lookup String-discrete info.id modules ≡ none)
        × (after ≡ insert String-discrete info.id info modules)
  unfolding register_module
  registered info modules after e = (ground (arith, e), ground (arith, e))

  -- A module that is registered is found by its id, and every other id finds what it found before.
  pub get_module_info-register_module :
      (info : ModuleInfo M) (modules after : Dict String (ModuleInfo M))
      → register_module info modules ≡ inr after
      → (get_module_info info.id after ≡ some info)
        × (get_module_info info.id modules ≡ none)
        × ((id : String) → id ≢ info.id → get_module_info id after ≡ get_module_info id modules)
  get_module_info-register_module info modules after e =
      let r = registered info modules after e in
      (
        ap (lookup String-discrete info.id) (r.1)
            ∙ lookup-insert_self String-discrete info.id info modules,
        r.0,
        λ id n.
            ap (lookup String-discrete id) (r.1)
            ∙ lookup-insert_ne String-discrete info.id id info modules n,
      )
