-- ===== src/Bytecode.antt =====
-- rir/src/bc/insns.h and the tables of rir/src/bc/BC_inc.h that are generated from it: the
-- instructions, with the number of their immediates, and how many values they pop and push.
pub mod Decode
pub mod Write
pub mod Operands
pub mod RoundTrip
use rir.Prelude.{
  length, ℕ, ◌+◌, ◌*◌, Bool, true, false, ◌&&◌, ◌||◌, Option, none, some, List, [], ◌∷◌,
}

pub data Opcode : Type 0 where
  invalid_ nop_ clear_binding_cache_ ldfun_ ldvar_ ldvar_noforce_ : Opcode
  ldvar_cached_ ldvar_for_update_cache_ ldvar_for_update_ ldvar_super_ ldddvar_ stvar_ : Opcode
  stvar_cached_ stvar_super_ call_ named_call_ call_dots_ call_builtin_ : Opcode
  close_ check_function_ mk_eager_promise_ mk_promise_ force_ push_ : Opcode
  dup_ dup2_ pop_ popn_ swap_ put_ : Opcode
  pick_ pull_ inc_ uplus_ uminus_ not_ : Opcode
  add_ sub_ mul_ div_ idiv_ mod_ : Opcode
  pow_ eq_ ne_ lt_ le_ gt_ : Opcode
  ge_ lgl_and_ lgl_or_ colon_ as_switch_idx_ identical_noforce_ : Opcode
  aslogical_ asbool_ colon_input_effects_ colon_cast_lhs_ colon_cast_rhs_ is_ : Opcode
  missing_ brtrue_ brfalse_ br_ extract1_1_ extract1_2_ : Opcode
  extract1_3_ subassign1_1_ subassign1_2_ subassign1_3_ extract2_1_ extract2_2_ : Opcode
  set_vec_elt_ subassign2_1_ subassign2_2_ guard_fun_ names_ set_names_ : Opcode
  length_ for_seq_size_ visible_ invisible_ set_shared_ ensure_named_ : Opcode
  beginloop_ endloop_ return_ ret_ record_call_ record_type_ : Opcode
  record_test_ int3_ : Opcode

-- One row of the table; the pop count is absent where the source has -1.
pub record Layout : Type 0 where
  pub imm : ℕ
  pub pop : Option ℕ
  pub push : ℕ

abbrev pub layout : ℕ → Option ℕ → ℕ → Layout
layout i p q = record { imm = i; pop = p; push = q }

unfoldable pub def_instr : Opcode → Layout
def_instr invalid_ = layout 0 (some 0) 0
def_instr nop_ = layout 0 (some 0) 0
def_instr clear_binding_cache_ = layout 2 (some 0) 0
def_instr ldfun_ = layout 1 (some 0) 1
def_instr ldvar_ = layout 1 (some 0) 1
def_instr ldvar_noforce_ = layout 1 (some 0) 1
def_instr ldvar_cached_ = layout 2 (some 0) 1
def_instr ldvar_for_update_cache_ = layout 2 (some 0) 1
def_instr ldvar_for_update_ = layout 1 (some 0) 1
def_instr ldvar_super_ = layout 1 (some 0) 1
def_instr ldddvar_ = layout 1 (some 0) 1
def_instr stvar_ = layout 1 (some 1) 0
def_instr stvar_cached_ = layout 2 (some 1) 0
def_instr stvar_super_ = layout 1 (some 1) 0
def_instr call_ = layout 4 none 1
def_instr named_call_ = layout 4 none 1
def_instr call_dots_ = layout 4 none 1
def_instr call_builtin_ = layout 3 none 1
def_instr close_ = layout 0 (some 3) 1
def_instr check_function_ = layout 0 (some 1) 1
def_instr mk_eager_promise_ = layout 1 (some 1) 1
def_instr mk_promise_ = layout 1 (some 0) 1
def_instr force_ = layout 0 (some 1) 1
def_instr push_ = layout 1 (some 0) 1
def_instr dup_ = layout 0 (some 1) 2
def_instr dup2_ = layout 0 (some 2) 4
def_instr pop_ = layout 0 (some 1) 0
def_instr popn_ = layout 1 none 0
def_instr swap_ = layout 0 (some 2) 2
def_instr put_ = layout 1 (some 0) 0
def_instr pick_ = layout 1 (some 0) 0
def_instr pull_ = layout 1 (some 0) 1
def_instr inc_ = layout 0 (some 1) 1
def_instr uplus_ = layout 0 (some 1) 1
def_instr uminus_ = layout 0 (some 1) 1
def_instr not_ = layout 0 (some 1) 1
def_instr add_ = layout 0 (some 2) 1
def_instr sub_ = layout 0 (some 2) 1
def_instr mul_ = layout 0 (some 2) 1
def_instr div_ = layout 0 (some 2) 1
def_instr idiv_ = layout 0 (some 2) 1
def_instr mod_ = layout 0 (some 2) 1
def_instr pow_ = layout 0 (some 2) 1
def_instr eq_ = layout 0 (some 2) 1
def_instr ne_ = layout 0 (some 2) 1
def_instr lt_ = layout 0 (some 2) 1
def_instr le_ = layout 0 (some 2) 1
def_instr gt_ = layout 0 (some 2) 1
def_instr ge_ = layout 0 (some 2) 1
def_instr lgl_and_ = layout 0 (some 2) 1
def_instr lgl_or_ = layout 0 (some 2) 1
def_instr colon_ = layout 0 (some 2) 1
def_instr as_switch_idx_ = layout 0 (some 1) 1
def_instr identical_noforce_ = layout 0 (some 2) 1
def_instr aslogical_ = layout 0 (some 1) 1
def_instr asbool_ = layout 0 (some 1) 1
def_instr colon_input_effects_ = layout 0 (some 2) 3
def_instr colon_cast_lhs_ = layout 0 (some 1) 1
def_instr colon_cast_rhs_ = layout 0 (some 2) 2
def_instr is_ = layout 1 (some 1) 1
def_instr missing_ = layout 1 (some 0) 1
def_instr brtrue_ = layout 1 (some 1) 0
def_instr brfalse_ = layout 1 (some 1) 0
def_instr br_ = layout 1 (some 0) 0
def_instr extract1_1_ = layout 0 (some 2) 1
def_instr extract1_2_ = layout 0 (some 3) 1
def_instr extract1_3_ = layout 0 (some 4) 1
def_instr subassign1_1_ = layout 0 (some 3) 1
def_instr subassign1_2_ = layout 0 (some 4) 1
def_instr subassign1_3_ = layout 0 (some 5) 1
def_instr extract2_1_ = layout 0 (some 2) 1
def_instr extract2_2_ = layout 0 (some 3) 1
def_instr set_vec_elt_ = layout 0 (some 3) 1
def_instr subassign2_1_ = layout 0 (some 3) 1
def_instr subassign2_2_ = layout 0 (some 4) 1
def_instr guard_fun_ = layout 3 (some 0) 0
def_instr names_ = layout 0 (some 1) 1
def_instr set_names_ = layout 0 (some 2) 1
def_instr length_ = layout 0 (some 1) 1
def_instr for_seq_size_ = layout 0 (some 0) 1
def_instr visible_ = layout 0 (some 0) 0
def_instr invisible_ = layout 0 (some 0) 0
def_instr set_shared_ = layout 0 (some 1) 1
def_instr ensure_named_ = layout 0 (some 1) 1
def_instr beginloop_ = layout 1 (some 0) 0
def_instr endloop_ = layout 0 (some 0) 0
def_instr return_ = layout 0 (some 1) 0
def_instr ret_ = layout 0 (some 1) 0
def_instr record_call_ = layout 4 (some 1) 1
def_instr record_type_ = layout 1 (some 1) 1
def_instr record_test_ = layout 1 (some 1) 1
def_instr int3_ = layout 0 (some 0) 0

-- The values of the enumeration, from 0 on.
abbrev pub opcodes : List Opcode
opcodes =
    invalid_ ∷ nop_ ∷ clear_binding_cache_ ∷ ldfun_ ∷ ldvar_ ∷ ldvar_noforce_ ∷ ldvar_cached_
    ∷ ldvar_for_update_cache_ ∷ ldvar_for_update_ ∷ ldvar_super_ ∷ ldddvar_ ∷ stvar_ ∷ stvar_cached_
    ∷ stvar_super_ ∷ call_ ∷ named_call_ ∷ call_dots_ ∷ call_builtin_ ∷ close_ ∷ check_function_
    ∷ mk_eager_promise_ ∷ mk_promise_ ∷ force_ ∷ push_ ∷ dup_ ∷ dup2_ ∷ pop_ ∷ popn_ ∷ swap_ ∷ put_
    ∷ pick_ ∷ pull_ ∷ inc_ ∷ uplus_ ∷ uminus_ ∷ not_ ∷ add_ ∷ sub_ ∷ mul_ ∷ div_ ∷ idiv_ ∷ mod_
    ∷ pow_ ∷ eq_ ∷ ne_ ∷ lt_ ∷ le_ ∷ gt_ ∷ ge_ ∷ lgl_and_ ∷ lgl_or_ ∷ colon_ ∷ as_switch_idx_
    ∷ identical_noforce_ ∷ aslogical_ ∷ asbool_ ∷ colon_input_effects_ ∷ colon_cast_lhs_
    ∷ colon_cast_rhs_ ∷ is_ ∷ missing_ ∷ brtrue_ ∷ brfalse_ ∷ br_ ∷ extract1_1_ ∷ extract1_2_
    ∷ extract1_3_ ∷ subassign1_1_ ∷ subassign1_2_ ∷ subassign1_3_ ∷ extract2_1_ ∷ extract2_2_
    ∷ set_vec_elt_ ∷ subassign2_1_ ∷ subassign2_2_ ∷ guard_fun_ ∷ names_ ∷ set_names_ ∷ length_
    ∷ for_seq_size_ ∷ visible_ ∷ invisible_ ∷ set_shared_ ∷ ensure_named_ ∷ beginloop_ ∷ endloop_
    ∷ return_ ∷ ret_ ∷ record_call_ ∷ record_type_ ∷ record_test_ ∷ int3_ ∷ []

-- The value behind the last instruction of the enum.
abbrev pub num_of : ℕ
num_of = length opcodes

unfoldable pub code_of : Opcode → ℕ
code_of invalid_ = 0
code_of nop_ = 1
code_of clear_binding_cache_ = 2
code_of ldfun_ = 3
code_of ldvar_ = 4
code_of ldvar_noforce_ = 5
code_of ldvar_cached_ = 6
code_of ldvar_for_update_cache_ = 7
code_of ldvar_for_update_ = 8
code_of ldvar_super_ = 9
code_of ldddvar_ = 10
code_of stvar_ = 11
code_of stvar_cached_ = 12
code_of stvar_super_ = 13
code_of call_ = 14
code_of named_call_ = 15
code_of call_dots_ = 16
code_of call_builtin_ = 17
code_of close_ = 18
code_of check_function_ = 19
code_of mk_eager_promise_ = 20
code_of mk_promise_ = 21
code_of force_ = 22
code_of push_ = 23
code_of dup_ = 24
code_of dup2_ = 25
code_of pop_ = 26
code_of popn_ = 27
code_of swap_ = 28
code_of put_ = 29
code_of pick_ = 30
code_of pull_ = 31
code_of inc_ = 32
code_of uplus_ = 33
code_of uminus_ = 34
code_of not_ = 35
code_of add_ = 36
code_of sub_ = 37
code_of mul_ = 38
code_of div_ = 39
code_of idiv_ = 40
code_of mod_ = 41
code_of pow_ = 42
code_of eq_ = 43
code_of ne_ = 44
code_of lt_ = 45
code_of le_ = 46
code_of gt_ = 47
code_of ge_ = 48
code_of lgl_and_ = 49
code_of lgl_or_ = 50
code_of colon_ = 51
code_of as_switch_idx_ = 52
code_of identical_noforce_ = 53
code_of aslogical_ = 54
code_of asbool_ = 55
code_of colon_input_effects_ = 56
code_of colon_cast_lhs_ = 57
code_of colon_cast_rhs_ = 58
code_of is_ = 59
code_of missing_ = 60
code_of brtrue_ = 61
code_of brfalse_ = 62
code_of br_ = 63
code_of extract1_1_ = 64
code_of extract1_2_ = 65
code_of extract1_3_ = 66
code_of subassign1_1_ = 67
code_of subassign1_2_ = 68
code_of subassign1_3_ = 69
code_of extract2_1_ = 70
code_of extract2_2_ = 71
code_of set_vec_elt_ = 72
code_of subassign2_1_ = 73
code_of subassign2_2_ = 74
code_of guard_fun_ = 75
code_of names_ = 76
code_of set_names_ = 77
code_of length_ = 78
code_of for_seq_size_ = 79
code_of visible_ = 80
code_of invisible_ = 81
code_of set_shared_ = 82
code_of ensure_named_ = 83
code_of beginloop_ = 84
code_of endloop_ = 85
code_of return_ = 86
code_of ret_ = 87
code_of record_call_ = 88
code_of record_type_ = 89
code_of record_test_ = 90
code_of int3_ = 91

-- `sizeof(Immediate)` is 4.
unfoldable pub fixed_size : Opcode → ℕ
unfolding def_instr
fixed_size bc = (def_instr bc).imm * 4 + 1

unfoldable pub push_count : Opcode → ℕ
unfolding def_instr
push_count bc = (def_instr bc).push

unfoldable pub pop_count : Opcode → Option ℕ
unfolding def_instr
pop_count bc = (def_instr bc).pop
