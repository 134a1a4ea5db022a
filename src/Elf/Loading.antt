-- ===== src/Elf/Loading.antt =====
-- Which pages are set up, and what is written to which address, once a file is loaded.
use duvuvurkarpogeschel.Prelude.{ℕ, ◌≤◌, ◌≡◌, Option, some, List, []}
use duvuvurkarpogeschel.Error.{WithError, ok, err}
use duvuvurkarpogeschel.Paging.{Paging}
use duvuvurkarpogeschel.Paging.Setup.{Grown}
use duvuvurkarpogeschel.Elf.Segments.{
  last_write, is_set_up, AreBacked, loaded_byte, loaded_page, loaded_end,
}
use duvuvurkarpogeschel.Elf.{et_exec, ProgramHeader, ElfHeader, Loader, get_first_load_address}

abbrev pub OnSuccess : WithError ℕ → (ℕ → Type 0) → Type 0
OnSuccess (ok n) P = P n
OnSuccess (err e) P = Unit

-- It returns, takes only free frames and writes only to pages that were set up; on success the end
-- of the last segment, the pages and the bytes are those of the segments.
pub record Loads (s : Loader) (ps : List ProgramHeader) (last_addr : ℕ)
    (result : Option (WithError ℕ × Loader)) : Type 0 where
  pub value : WithError ℕ
  pub after : Loader
  pub is_result : result ≡ some (value, after)
  pub grown : Grown s.paging.manager after.paging.manager
  pub backed : AreBacked after.steps
  pub loaded : OnSuccess value (λ n.
      (n ≡ loaded_end ps last_addr)
      × ((page : ℕ) → is_set_up after.steps page ≡ loaded_page ps page (is_set_up s.steps page))
      × ((x : ℕ) → last_write after.steps x ≡ loaded_byte ps x (last_write s.steps x)))

-- Before the file is loaded.
abbrev pub new_loader : Paging → Loader
new_loader paging = record { paging = paging; steps = [] }

pub IsExecutable : ElfHeader → Type 0
IsExecutable e = (e.e_type ≡ et_exec) × (0xffff800000000000 ≤ get_first_load_address e)
