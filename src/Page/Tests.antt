-- ===== src/Page/Tests.antt =====
-- A fresh page, with no slot allocated and an empty free list.
use rudo.Prelude.{◌≡◌, ◌≢◌, refl, none, some, replicate}
use rudo.Bitmap.Laws.{replicate-IsBitmap}
use rudo.Page.{PageHeader, magic_gc_page, free_list_none, free_list_head}
use rudo.Page.Marks.{IsWf}

abbrev pub fresh : PageHeader
fresh = record {
  magic = magic_gc_page;
  block_size = 32;
  obj_count = 124;
  header_size = 1600;
  generation = 0;
  flags = 0;
  owner_thread = 1;
  dead_count = 0;
  mark_bitmap = replicate 64 0;
  dirty_bitmap = replicate 64 0;
  allocated_bitmap = replicate 64 0;
  free_list_head = free_list_none;
}

pub fresh-IsWf : IsWf fresh
fresh-IsWf = record {
  marks = replicate-IsBitmap 64;
  dirty = replicate-IsBitmap 64;
  allocated = replicate-IsBitmap 64;
}

fresh_head : free_list_head fresh ≡ none
unfolding free_list_head
fresh_head = refl

fresh_head_ne : free_list_head fresh ≢ some 2
fresh_head_ne e = cc (fresh_head, e)
