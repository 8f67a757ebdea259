-- ===== src/InvertedIndex/Pages.antt =====
-- The pages of the documents of a term: `TermPageHeader` and `TermPage` of
-- backends/mysql/src/metadata/indices/inverted_index/db_inverted_index.rs.
use secure_fusion.Prelude.{
  ℕ, suc, zero, ◌+◌, ◌-◌, ◌*◌, ◌/◌, ◌%◌, List, [], ◌∷◌, ◌++◌, length, take, drop, leb, ltb, ◌==◌,
  if◌then◌else◌,
}
use secure_fusion.Prelude.Sets.{Bytes}
use secure_fusion.Run.{Run, returns, panics, ◌>>=◌}
use secure_fusion.InvertedIndex.{max_term_size}
use secure_fusion.InvertedIndex.Tree.{from_le_bytes}
pub mod RoundTrip

-- 4096 bytes without the AEAD tag.
abbrev pub page_size : ℕ
page_size = 4096 - 16

abbrev pub page_num_len : ℕ
page_num_len = 5 - max_term_size % 8

pub record TermPageHeader : Type 0 where
  pub num_present : ℕ
  pub term_len : ℕ
  pub term : Bytes
  pub page_number : Bytes

-- `size_of::<TermPageHeader>()`: 2 + 1 + 64 + 5.
abbrev header_size : ℕ
header_size = 3 + max_term_size + page_num_len

abbrev pub entries_data_size : ℕ
entries_data_size = page_size - header_size

unfoldable pub header_term : TermPageHeader → Bytes
header_term h = take h.term_len h.term

unfoldable pub page_number : TermPageHeader → ℕ
page_number h = from_le_bytes h.page_number

-- The first bytes of `n.to_le_bytes()`.
abbrev pub to_le_bytes : (width n : ℕ) → Bytes
to_le_bytes zero n = []
to_le_bytes (suc width) n = n % 256 ∷ to_le_bytes width (n / 256)

abbrev pub zeros : ℕ → Bytes
zeros zero = []
zeros (suc n) = 0 ∷ zeros n

unfoldable pub new_header : Bytes → ℕ → TermPageHeader
new_header t page_num =
    let term_len = if leb (length t) max_term_size then length t else max_term_size in
    record {
      num_present = 0;
      term_len = term_len % 256;
      term = take term_len t ++ zeros (max_term_size - term_len);
      page_number = to_le_bytes page_num_len page_num;
    }

pub record TermPage : Type 0 where
  pub header : TermPageHeader
  pub entries_data : Bytes

-- The first chunks of `as_chunks`, of `size` bytes each.
abbrev pub chunks : (count size : ℕ) → Bytes → List Bytes
chunks zero size data_ = []
chunks (suc count) size data_ = take size data_ ∷ chunks count size (drop size data_)

-- `size` is the const parameter KeySize.
unfoldable pub items : ℕ → TermPage → Run (List Bytes)
items size page =
    let total_occupied_size = size * page.header.num_present in
    if leb total_occupied_size (length page.entries_data)
    then returns (chunks page.header.num_present size (take total_occupied_size page.entries_data))
    else panics

unfoldable pub new_page : Bytes → ℕ → TermPage
new_page t page_num = record {
  header = new_header t page_num;
  entries_data = zeros entries_data_size;
}

unfoldable pub max_entries : ℕ → Run ℕ
max_entries size = if size == 0 then panics else returns (entries_data_size / size)

unfoldable pub free_space : ℕ → TermPage → Run ℕ
free_space size page = do
  most ← max_entries size
  if leb page.header.num_present most then returns (most - page.header.num_present) else panics

-- `entries_data[position..(position + KeySize)].copy_from_slice(&elem)`
unfoldable pub copy_entry : (size position : ℕ) → Bytes → Bytes → Run Bytes
copy_entry size position elem_ data_ =
    if leb (position + size) (length data_)
    then returns (take position data_ ++ elem_ ++ drop (position + size) data_)
    else panics

unfoldable pub push_entries : (size position : ℕ) → List Bytes → TermPage → Run TermPage
push_entries size position [] page = returns page
push_entries size position (elem_ ∷ rest) page = do
  copied ← copy_entry size position elem_ page.entries_data
  push_entries size (position + size) rest (record {
    header = record page.header { num_present = page.header.num_present + 1 };
    entries_data = copied;
  })

unfoldable pub from_iterator : ℕ → Bytes → ℕ → List Bytes → Run TermPage
from_iterator size t page_num i = push_entries size 0 i (new_page t page_num)
