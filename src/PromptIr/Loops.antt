-- ===== src/PromptIr/Loops.antt =====
-- When the loops of `validate` over the entries of a prompt find no error, and the ids they register.
use code_is_cheap.Common.{ℕ, ◌+◌, ◌≡◌, false, Option, none, some, List, [], ◌∷◌, ◌++◌, map, All}
use code_is_cheap.Text.{Text, text}
use code_is_cheap.PromptIr.{
  Evidence, PromptPart, part_id, Instruction, Message, ContextItem, ToolDefinition, ResponseTrace,
  ResponseEvent,
}
use code_is_cheap.PromptIr.Checks.{
  is_blank, register_id, check_non_empty, check_evidence, check_parts,
}
use code_is_cheap.PromptIr.Validate.{
  check_instructions, check_messages, check_context, check_tools, check_events, check_response,
}
use code_is_cheap.PromptIr.Adds.{
  Adds, Adds-then, Adds-last, Adds-skip, Adds-iff, report_if-Adds, register_id-Adds,
}
use code_is_cheap.PromptIr.Entries.{
  IsGoodEvidence, IsGoodPart, check_evidence-Adds, check_parts-Adds,
}

-- An entry with an id, evidence and parts: an instruction, a message or a context item.
entry-Adds :
    (id : Text) (e : Evidence) (parts : List PromptPart) (path : Text)
    → Adds
        (λ s.
          check_parts parts path 0
            (check_evidence e (path ++ text ".evidence") (register_id id path s)))
        (id ∷ map part_id parts)
        (IsGoodEvidence e × All IsGoodPart parts)
entry-Adds id e parts path =
    Adds-iff (λ ((u, g), h). (g, h), λ (g, h). ((tt, g), h))
      (Adds-then (Adds-then (register_id-Adds id path) (check_evidence-Adds e _))
        (check_parts-Adds parts path 0))

abbrev pub instruction_ids : List Instruction → List Text
instruction_ids [] = []
instruction_ids (i ∷ is) = i.id ∷ map part_id i.parts ++ instruction_ids is

abbrev pub message_ids : List Message → List Text
message_ids [] = []
message_ids (m ∷ ms) = m.id ∷ map part_id m.parts ++ message_ids ms

abbrev pub context_ids : List ContextItem → List Text
context_ids [] = []
context_ids (c ∷ cs) = c.id ∷ map part_id c.parts ++ context_ids cs

abbrev pub IsGoodInstruction : Instruction → Type 0
IsGoodInstruction i = IsGoodEvidence i.evidence × All IsGoodPart i.parts

abbrev pub IsGoodMessage : Message → Type 0
IsGoodMessage m = IsGoodEvidence m.evidence × All IsGoodPart m.parts

abbrev pub IsGoodContext : ContextItem → Type 0
IsGoodContext c = IsGoodEvidence c.evidence × All IsGoodPart c.parts

abbrev pub IsGoodTool : ToolDefinition → Type 0
IsGoodTool t = (is_blank t.name ≡ false) × IsGoodEvidence t.evidence

abbrev pub IsGoodEvent : ResponseEvent → Type 0
IsGoodEvent e = (is_blank e.kind ≡ false) × IsGoodEvidence e.evidence

pub check_instructions-Adds :
    (is : List Instruction) (index : ℕ)
    → Adds (check_instructions is index) (instruction_ids is) (All IsGoodInstruction is)
unfolding check_instructions
check_instructions-Adds [] index = Adds-skip
check_instructions-Adds (i ∷ is) index =
    Adds-then (entry-Adds i.id i.evidence i.parts _) (check_instructions-Adds is (index + 1))

pub check_messages-Adds :
    (ms : List Message) (index : ℕ)
    → Adds (check_messages ms index) (message_ids ms) (All IsGoodMessage ms)
unfolding check_messages
check_messages-Adds [] index = Adds-skip
check_messages-Adds (m ∷ ms) index =
    Adds-then (entry-Adds m.id m.evidence m.parts _) (check_messages-Adds ms (index + 1))

pub check_context-Adds :
    (cs : List ContextItem) (index : ℕ)
    → Adds (check_context cs index) (context_ids cs) (All IsGoodContext cs)
unfolding check_context
check_context-Adds [] index = Adds-skip
check_context-Adds (c ∷ cs) index =
    Adds-then (entry-Adds c.id c.evidence c.parts _) (check_context-Adds cs (index + 1))

pub check_non_empty-Adds :
    (value path : Text) → Adds (check_non_empty value path) [] (is_blank value ≡ false)
unfolding check_non_empty
check_non_empty-Adds value path = report_if-Adds (is_blank value) _

pub check_tools-Adds :
    (ts : List ToolDefinition) (index : ℕ)
    → Adds (check_tools ts index) (map (λ t. t.id) ts) (All IsGoodTool ts)
unfolding check_tools
check_tools-Adds [] index = Adds-skip
check_tools-Adds (t ∷ ts) index =
    Adds-iff (λ (((u, b), e), h). ((b, e), h), λ ((b, e), h). (((tt, b), e), h))
      (Adds-then
        (Adds-then (Adds-then (register_id-Adds t.id _) (check_non_empty-Adds t.name _))
          (check_evidence-Adds t.evidence _))
        (check_tools-Adds ts (index + 1)))

pub check_events-Adds :
    (es : List ResponseEvent) (index : ℕ) → Adds (check_events es index) [] (All IsGoodEvent es)
unfolding check_events
check_events-Adds [] index = Adds-skip
check_events-Adds (e ∷ es) index =
    Adds-then (Adds-then (check_non_empty-Adds e.kind _) (check_evidence-Adds e.evidence _))
      (check_events-Adds es (index + 1))

abbrev pub response_ids : Option ResponseTrace → List Text
response_ids none = []
response_ids (some r) = map part_id r.parts

abbrev pub IsGoodResponse : Option ResponseTrace → Type 0
IsGoodResponse none = Unit
IsGoodResponse (some r) =
    IsGoodEvidence r.evidence × All IsGoodPart r.parts × All IsGoodEvent r.events

pub check_response-Adds :
    (r : Option ResponseTrace) → Adds (check_response r) (response_ids r) (IsGoodResponse r)
unfolding check_response
check_response-Adds none = Adds-skip
check_response-Adds (some r) =
    Adds-iff (λ ((e, p), v). (e, p, v), λ (e, p, v). ((e, p), v))
      (Adds-last (Adds-then (check_evidence-Adds r.evidence _) (check_parts-Adds r.parts _ 0))
        (check_events-Adds r.events 0))
