-- ===== src/ObjectLifetime.antt =====
-- delete-me/stdlib/object-lifetime.cpp: the table of destructors that run when the module ends. A
-- function and an object are addresses, 0 is the null pointer, and a call of a destructor is an
-- entry of the log that a function returns: its address and its argument. The destructors
-- themselves are not part of the repository; they do not use the table.
pub mod Laws
pub mod Order
use akl.Base.{ℕ, zero, suc, ◌+◌, ◌-◌, ◌^◌, Bool, not, List, [], ◌∷◌, ◌==◌, if◌then◌else◌, ltb}

-- `struct AtExitFunctionEntry`
pub record Entry : Type 0 where
  pub destructor : ℕ
  pub object_pointer : ℕ
  pub dso_handle : ℕ

abbrev pub maximum_function_count : ℕ
maximum_function_count = 128

-- `atexit_functions` and `atexit_function_count`
pub record Registry : Type 0 where
  pub functions : ℕ → Entry
  pub count : ℕ

abbrev pub empty : Registry
empty = record {
  functions = λ _. record { destructor = 0; object_pointer = 0; dso_handle = 0 };
  count = 0;
}

abbrev pub Call : Type 0
Call = ℕ × ℕ

abbrev pub call_of : Entry → Call
call_of e = (e.destructor, e.object_pointer)

-- `functions[i] = e`
abbrev pub store : (ℕ → Entry) → ℕ → Entry → ℕ → Entry
store functions i e j = if j == i then e else functions j

-- The constructors of the initialisation array that are called.
unfoldable pub call_constructors : List ℕ → List ℕ
call_constructors [] = []
call_constructors (constructor ∷ rest) =
    let calls = call_constructors rest in if constructor == 0 then calls else constructor ∷ calls

-- The `int` -1.
abbrev pub failed : ℕ
failed = 2 ^ 32 - 1

unfoldable pub cxa_atexit : (destructor object_pointer dso_handle : ℕ) → Registry → ℕ × Registry
cxa_atexit destructor object_pointer dso_handle r =
    if not (ltb r.count maximum_function_count) then (failed, r) else (
      0,
      record {
        functions = store r.functions r.count (record {
          destructor = destructor;
          object_pointer = object_pointer;
          dso_handle = dso_handle;
        });
        count = r.count + 1;
      },
    )

-- The first loop of `__cxa_finalize`, from `i` down.
unfoldable pub destruct_all : ℕ → (ℕ → Entry) → List Call
destruct_all zero functions = []
destruct_all (suc i) functions =
    let calls = destruct_all i functions in
    if (functions i).destructor == 0 then calls else call_of (functions i) ∷ calls

-- Its second loop.
unfoldable pub destruct_matching : ℕ → ℕ → (ℕ → Entry) → List Call × (ℕ → Entry)
destruct_matching zero destructor_function functions = ([], functions)
destruct_matching (suc i) destructor_function functions =
    let e = functions i in
    let found = e.destructor == destructor_function in
    let (calls, functions') =
      destruct_matching i destructor_function
        (if found then store functions i (record e { destructor = 0 }) else functions) in
    (if found then call_of e ∷ calls else calls, functions')

unfoldable pub cxa_finalize : ℕ → Registry → List Call × Registry
cxa_finalize destructor_function r =
    let (calls, functions) = destruct_matching r.count destructor_function r.functions in
    if destructor_function == 0
    then (destruct_all r.count r.functions, r)
    else (calls, record r { functions = functions })

unfoldable pub call_destructors : Registry → List Call × Registry
unfolding cxa_finalize
call_destructors r = cxa_finalize 0 r
