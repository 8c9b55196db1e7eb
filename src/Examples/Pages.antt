-- ===== src/Examples/Pages.antt =====
-- The page manager on a machine with two pages, of which the first is used, and at boot.
use kfs.Base.{suc, ℕ, ◌+◌, ◌*◌, ◌≡◌, ◌⊎◌, refl, arith, replicate, ◌∷◌}
use kfs.Machine.Outcome.{Panic, ok, halted}
use kfs.Pmm.{
  Pmm, boot, tst_bit, take_page, page_size, pmm_start, pmm_alloc_page, pmm_free_page, pmm_init,
  set_bit, clr_bit, alloc_from,
}
use kfs.Pmm.Inv.{IsValid, count_free}
use kfs.Pmm.Alloc.{
  IsLowestFree, pmm_alloc_page-IsLowestFree, pmm_alloc_page-IsValid, pmm_alloc_page-full,
}
use kfs.Pmm.Free.{
  SamePages, InRange, pmm_free_page-pmm_alloc_page, pmm_free_page_twice, pmm_free_page-IsValid,
}
use kfs.Pmm.Init.{IsFresh, pmm_init-IsFresh, pmm_init-small}

abbrev pub two_pages : Pmm
two_pages = record {
  total_pages = 2;
  free_pages = 1;
  limit_bytes = 0x00102000;
  bitmap = 1 ∷ replicate 80 0;
  current_brk = 0;
}

pub two_pages-IsValid : IsValid two_pages
unfolding count_free tst_bit
two_pages-IsValid = record { words = refl; small = omega arith; counted = refl }

alloc_run : pmm_alloc_page two_pages ≡ ok (0x00101000, take_page 1 two_pages)
unfolding pmm_alloc_page alloc_from tst_bit take_page set_bit
alloc_run = refl

free_run :
    pmm_free_page 0x00100008 two_pages
    ≡ ok (record two_pages { bitmap = clr_bit two_pages.bitmap 0; free_pages = 2 })
unfolding pmm_free_page tst_bit clr_bit
free_run = refl

pmm_alloc_page-IsLowestFree_example :
    (j : ℕ) × IsLowestFree two_pages j
    × (pmm_alloc_page two_pages ≡ ok (pmm_start + j * page_size, take_page j two_pages))
pmm_alloc_page-IsLowestFree_example =
    pmm_alloc_page-IsLowestFree {s = two_pages} two_pages-IsValid (omega arith)

pmm_alloc_page-IsValid_example :
    IsValid (take_page 1 two_pages) × (suc (take_page 1 two_pages).free_pages ≡ 1)
pmm_alloc_page-IsValid_example =
    pmm_alloc_page-IsValid {s = two_pages} {t = take_page 1 two_pages} {p = 0x00101000}
      two_pages-IsValid alloc_run

pmm_alloc_page-full_example :
    pmm_alloc_page (take_page 1 two_pages) ≡ halted Panic.pmm_out_of_memory
unfolding take_page
pmm_alloc_page-full_example =
    pmm_alloc_page-full {s = take_page 1 two_pages} pmm_alloc_page-IsValid_example.0 refl

pmm_free_page-pmm_alloc_page_example :
    (u : Pmm) × (pmm_free_page 0x00101000 (take_page 1 two_pages) ≡ ok u) × SamePages two_pages u
pmm_free_page-pmm_alloc_page_example =
    pmm_free_page-pmm_alloc_page {s = two_pages} {t = take_page 1 two_pages} {p = 0x00101000}
      two_pages-IsValid alloc_run

pmm_free_page_twice_example :
    pmm_free_page 0x00100008
      (record two_pages { bitmap = clr_bit two_pages.bitmap 0; free_pages = 2 })
    ≡ halted (Panic.pmm_double_free 0x00100008)
pmm_free_page_twice_example =
    pmm_free_page_twice {s = two_pages}
      {t = record two_pages { bitmap = clr_bit two_pages.bitmap 0; free_pages = 2 }}
      {addr = 0x00100008} two_pages-IsValid (omega arith) free_run

pmm_free_page-IsValid_example :
    IsValid (record two_pages { bitmap = clr_bit two_pages.bitmap 0; free_pages = 2 })
    × ((InRange two_pages 0x00100008 × (2 ≡ 1 + 1))
        ⊎ ((¬ InRange two_pages 0x00100008)
            × (record two_pages { bitmap = clr_bit two_pages.bitmap 0; free_pages = 2 }
                ≡ two_pages)))
pmm_free_page-IsValid_example =
    pmm_free_page-IsValid {s = two_pages}
      {t = record two_pages { bitmap = clr_bit two_pages.bitmap 0; free_pages = 2 }} 0x00100008
      (omega arith) two_pages-IsValid free_run

pmm_init-IsFresh_example : (t : Pmm) × (pmm_init 0x00a00000 boot ≡ ok t) × IsFresh 0x00a00000 t
pmm_init-IsFresh_example = pmm_init-IsFresh 0x00a00000 boot (omega arith) refl

pmm_init-small_example : pmm_init 0x00100fff boot ≡ halted Panic.pmm_no_memory
pmm_init-small_example = pmm_init-small 0x00100fff boot (omega arith) (omega arith)
