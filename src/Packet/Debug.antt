-- ===== src/Packet/Debug.antt =====
-- src/packet.rs: the `Debug` of `PacketDebug`. The text of a component is that of its own `Debug`,
-- and the text of `Bytes` that of the crate `bytes`.
use mathlib.Core.Path.{subst}
use blaze_pk_rs.Prelude.{
  ℕ, ◌≡◌, refl, ap, Bool, false, inl, inr, Bool-cases, List, [], ◌∷◌, ◌++◌, append_assoc,
  append-nil, Option, none, some, ◌==◌, if◌then◌else◌, length, arith,
}
use blaze_pk_rs.Buffer.{Buffers}
use blaze_pk_rs.PacketType.{PacketType}
use blaze_pk_rs.Packet.{PacketHeader}
use blaze_pk_rs.Packet.Body.{Packet}
use blaze_pk_rs.Reader.{new}
use blaze_pk_rs.Reader.Keeps.{IsValid}
use blaze_pk_rs.Reader.Stringify.{stringify}
use blaze_pk_rs.Reader.Stringify.Ends.{Ends, ended, panics, stringify-Ends}
use blaze_pk_rs.Printer.{Printed, done, failed, panicked, ran_out}
use blaze_pk_rs.Text.{Text, Formats, codes, decimal, padded_hex}
use blaze_pk_rs.Text.Debug.{packet_type_debug, error_debug}
use blaze_pk_rs.Types.Text.{as_bytes, pop}

-- What a formatter does: it writes a text, or panics. `unfinished` is no outcome of the
-- program.
pub data Formatted : Type 0 where
  written : Text → Formatted
  aborted unfinished : Formatted

-- Any of the types but `Notify` has an ID.
unfoldable pub id_line : PacketHeader → PacketType → Text
unfolding decimal
id_line header PacketType.notify = []
id_line header PacketType.request = codes "ID: " ++ (decimal header.id ++ codes "\n")
id_line header PacketType.response = codes "ID: " ++ (decimal header.id ++ codes "\n")
id_line header PacketType.error = codes "ID: " ++ (decimal header.id ++ codes "\n")

unfoldable pub error_line : PacketHeader → PacketType → Text
unfolding padded_hex
error_line header PacketType.error = codes "Error: " ++ (padded_hex header.error ++ codes "\n")
error_line header PacketType.request = []
error_line header PacketType.response = []
error_line header PacketType.notify = []

module _ {C : Type 0} (component_debug : C → Text) where
  unfoldable pub component_lines : PacketHeader → Option C → Text
  unfolding padded_hex
  component_lines header (some component) =
      codes "Component: " ++ (component_debug component ++ codes "\n")
  component_lines header none =
      codes "Component: "
      ++ (padded_hex header.component
          ++ (codes "\nCommand: " ++ (padded_hex header.command ++ codes "\n")))

  -- All lines but those of the contents.
  unfoldable pub header_lines : PacketHeader → Option C → Text
  unfolding component_lines packet_type_debug id_line error_line
  header_lines header component =
      component_lines header component
      ++ (codes "Type: "
          ++ (packet_type_debug header.ty
              ++ (codes "\n" ++ (id_line header header.ty ++ error_line header header.ty))))

-- Lines, each with its end.
abbrev pub unlines : List Text → Text
unlines [] = []
unlines (line ∷ rest) = line ++ (codes "\n" ++ unlines rest)

-- The lines of a header, by the type of its packet.
abbrev pub typed_lines : PacketHeader → PacketType → List Text
typed_lines header PacketType.request =
    codes "Type: Request" ∷ (codes "ID: " ++ decimal header.id) ∷ []
typed_lines header PacketType.response =
    codes "Type: Response" ∷ (codes "ID: " ++ decimal header.id) ∷ []
typed_lines header PacketType.notify = codes "Type: Notify" ∷ []
typed_lines header PacketType.error =
    codes "Type: Error"
    ∷ (codes "ID: " ++ decimal header.id)
    ∷ (codes "Error: " ++ padded_hex header.error)
    ∷ []

module _ {C : Type 0} (component_debug : C → Text) where
  abbrev pub shown : PacketHeader → Option C → List Text
  shown header (some component) =
      (codes "Component: " ++ component_debug component) ∷ typed_lines header header.ty
  shown header none =
      (codes "Component: " ++ padded_hex header.component)
      ∷ (codes "Command: " ++ padded_hex header.command)
      ∷ typed_lines header header.ty

  typed_lines-unlines :
      (header : PacketHeader) (ty : PacketType)
      → codes "Type: "
          ++ (packet_type_debug ty ++ (codes "\n" ++ (id_line header ty ++ error_line header ty)))
        ≡ unlines (typed_lines header ty)
  unfolding packet_type_debug id_line error_line
  typed_lines-unlines header PacketType.request = simp (append_assoc, append-nil)
  typed_lines-unlines header PacketType.response = simp (append_assoc, append-nil)
  typed_lines-unlines header PacketType.notify = refl
  typed_lines-unlines header PacketType.error = simp (append_assoc, append-nil)

  header_lines-unlines :
      (header : PacketHeader) (component : Option C)
      → header_lines component_debug header component ≡ unlines (shown header component)
  unfolding header_lines component_lines
  header_lines-unlines header (some component) =
      rw (typed_lines-unlines header header.ty) (simp append_assoc)
  header_lines-unlines header none = rw (typed_lines-unlines header header.ty) (simp append_assoc)

module _ (api : Buffers) (f : Formats) (bytes_debug : api.Bytes → Text) where
  open api use {Bytes, as_slice}

  pub record PacketDebug (C : Type 0) : Type 0 where
    pub packet : Packet api
    pub component : Option C
    pub minified : Bool

  -- What is made of the outcome of `stringify`.
  unfoldable pub content_lines : Bytes → Text → Printed → Formatted
  unfolding error_debug as_bytes pop
  content_lines contents head (done r out) =
      let closed = (if length (as_bytes out) == 2 then pop out else out) ++ codes "}" in
      written (head ++ (codes "Content: " ++ closed))
  content_lines contents head (failed err r out) = written (
      head
      ++ (codes "Content: Content was malformed\nError: "
          ++ (error_debug f err
              ++ (codes "\nPartial Content: "
                  ++ (out ++ (codes "\nRaw: " ++ (bytes_debug contents ++ codes "\n")))))))
  content_lines contents head panicked = aborted
  content_lines contents head ran_out = unfinished

  module _ {C : Type 0} (component_debug : C → Text) where
    unfoldable pub fmt : PacketDebug C → Formatted
    unfolding header_lines content_lines stringify
    fmt self =
        let head = header_lines component_debug self.packet.header self.component in
        let contents = self.packet.contents in
        if self.minified
        then written head
        else content_lines contents head (stringify f (new (as_slice contents)) (codes "{\n"))

  -- A text in braces behind the header's lines.
  pub data Braced (head : Text) : Formatted → Type 0 where
    braced :
        {text : Text} (body : Text)
        → text ≡ head ++ (codes "Content: {" ++ (body ++ codes "}"))
        → Braced head (written text)
    none_written : Braced head aborted

  content_lines-Braced :
      (contents : Bytes) (head : Text) {x : Printed}
      → Ends (new (as_slice contents)) (codes "{\n") x
      → Braced head (content_lines contents head x)
  unfolding content_lines pop
  content_lines-Braced contents head (ended {out' = out} more h e) =
      elim (Bool-cases (length (as_bytes out) == 2)) [
        | inl two ↦ rw two (
            braced (pop (b'\n' ∷ more))
              (ap (λ t. head ++ (codes "Content: " ++ (pop t ++ codes "}"))) e))
        | inr long ↦
            rw long
              (braced (b'\n' ∷ more) (ap (λ t. head ++ (codes "Content: " ++ (t ++ codes "}"))) e))
      ]
  content_lines-Braced contents head panics = none_written

  -- Whatever the contents of a packet are, what is written for it with its contents is the lines of
  -- its header, which are its component, or the numbers of that and of its command, its type, its
  -- id unless it is a notification, and its error if it is one, and then a text in braces, if there is
  -- no panic: never the lines for malformed contents,
  -- since `stringify` returns no error.
  pub fmt-Braced :
      {C : Type 0} (component_debug : C → Text) (self : PacketDebug C)
      → self.minified ≡ false
      → Braced
          (unlines (shown component_debug self.packet.header self.component))
          (fmt component_debug self)
  unfolding fmt new
  fmt-Braced component_debug self full =
      let head = header_lines component_debug self.packet.header self.component in
      rw full (
        subst
          (λ h. Braced h (
            content_lines self.packet.contents head
              (stringify f (new (as_slice self.packet.contents)) (codes "{\n"))))
          (header_lines-unlines component_debug self.packet.header self.component)
          (content_lines-Braced self.packet.contents head (
            stringify-Ends f (new (as_slice self.packet.contents)) (codes "{\n")
              (start (as_slice self.packet.contents)))))
    where
      start : (xs : List ℕ) → IsValid (new xs)
      start xs = omega arith
