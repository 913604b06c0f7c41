-- ===== src/Guest/Seccomp.antt =====
-- fake/seccomp_filter.cpp: the classic BPF program of the denylist, for both architectures, and the
-- two prctl(2) calls that install it. The kernel's interpreter and prctl are arguments; a program
-- only jumps forward, so the rest of the program stands for the program counter.
pub mod Decision
use virtualaosp.Base.{
  ℕ, zero, suc, ◌+◌, ◌-◌, ◌*◌, ◌%◌, ◌^◌, ◌<◌, Bool, true, false, ◌&&◌, ◌||◌, List, [], ◌∷◌, ◌++◌,
  ◌≡◌, refl, ap, ◌∙◌, arith, ◌==◌, if◌then◌else◌, length, drop,
}

-- struct sock_filter
pub record SockFilter : Type 0 where
  pub code : ℕ
  pub jt : ℕ
  pub jf : ℕ
  pub k : ℕ

-- The two fields of struct seccomp_data that the program loads.
pub record SeccompData : Type 0 where
  pub nr : ℕ
  pub arch : ℕ

-- BPF_LD | BPF_W | BPF_ABS, BPF_JMP | BPF_JEQ | BPF_K and BPF_RET | BPF_K
abbrev pub ld_abs : ℕ
ld_abs = 0x20

abbrev pub jeq_k : ℕ
jeq_k = 0x15

abbrev pub ret_k : ℕ
ret_k = 0x06

-- BPF_STMT and BPF_JUMP
abbrev pub bpf_stmt : ℕ → ℕ → SockFilter
bpf_stmt code k = record { code = code; jt = 0; jf = 0; k = k }

abbrev pub bpf_jump : ℕ → ℕ → ℕ → ℕ → SockFilter
bpf_jump code k jt jf = record { code = code; jt = jt; jf = jf; k = k }

-- offsetof(struct seccomp_data, nr) and arch
abbrev pub offset_nr : ℕ
offset_nr = 0

abbrev pub offset_arch : ℕ
offset_arch = 4

-- SECCOMP_RET_ALLOW, and SECCOMP_RET_ERRNO | (EPERM & SECCOMP_RET_DATA)
abbrev pub ret_allow : ℕ
ret_allow = 0x7fff0000

abbrev pub ret_eperm : ℕ
ret_eperm = 0x00050001

pub data Abi : Type 0 where
  aarch64 x86_64 : Abi

-- kAudArch
unfoldable pub aud_arch : Abi → ℕ
aud_arch aarch64 = 0xc00000b7
aud_arch x86_64 = 0xc000003e

-- The mark of a call that the architecture lacks.
abbrev pub absent : ℕ
absent = 0xffffffff

-- kDenied: mount, umount2, chroot, pivot_root, init_module, delete_module, kexec_load, swapon,
-- swapoff, reboot, keyctl, bpf and open_by_handle_at. kNrMknod is declared and not in it.
unfoldable pub denied : Abi → List ℕ
denied aarch64 = 40 ∷ 39 ∷ 51 ∷ 41 ∷ 105 ∷ 106 ∷ 104 ∷ 224 ∷ 225 ∷ 142 ∷ 219 ∷ 280 ∷ 265 ∷ []
denied x86_64 = 165 ∷ 166 ∷ 161 ∷ 155 ∷ 175 ∷ 176 ∷ 246 ∷ 167 ∷ 168 ∷ 169 ∷ 250 ∷ 321 ∷ 304 ∷ []

-- The loop that counts the calls present.
unfoldable pub count_denied : List ℕ → ℕ
count_denied [] = 0
count_denied (nr ∷ nrs) = let n = count_denied nrs in if nr == absent then n else suc n

-- The loop that writes two instructions for each of them.
unfoldable pub rules : List ℕ → List SockFilter
rules [] = []
rules (nr ∷ nrs) =
    let rest = rules nrs in
    if nr == absent
    then rest
    else (bpf_jump jeq_k (nr % 2 ^ 32) 0 1 ∷ bpf_stmt ret_k ret_eperm ∷ rest)

unfoldable pub total : List ℕ → ℕ
unfolding count_denied
total nrs = 3 + count_denied nrs * 2 + 1

-- The program, for an architecture constant and a list of calls.
unfoldable pub filter_program : ℕ → List ℕ → List SockFilter
unfolding rules total
filter_program arch nrs =
    bpf_stmt ld_abs offset_arch
    ∷ bpf_jump jeq_k arch 0 ((total nrs - 3) % 2 ^ 8)
    ∷ bpf_stmt ld_abs offset_nr
    ∷ (rules nrs ++ (bpf_stmt ret_k ret_allow ∷ []))

-- prctl(PR_SET_NO_NEW_PRIVS) and prctl(PR_SET_SECCOMP) with the program; true for a return of 0.
pub record Prctl : Type 1 where
  pub World : Type 0
  pub set_no_new_privs : World → Bool × World
  pub set_seccomp : List SockFilter → World → Bool × World

abbrev pub after_privs : (P : Prctl) → List SockFilter → Bool × P.World → Bool × P.World
after_privs P prog (false, w) = (false, w)
after_privs P prog (true, w) = P.set_seccomp prog w

unfoldable pub install_seccomp_filter : (P : Prctl) → Abi → P.World → Bool × P.World
unfolding filter_program total denied aud_arch
install_seccomp_filter P abi w =
    let prog = filter_program (aud_arch abi) (denied abi) in
    if length prog == total (denied abi)
    then after_privs P prog (P.set_no_new_privs w)
    else (false, w)
