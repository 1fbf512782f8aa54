-- ===== src/Domain/Cognitive.antt =====
-- src/sanuvia/domain/cognitive.py
pub data CognitiveState : Type 0 where
  unknown engaged neutral reduced_capacity distressed : CognitiveState

pub data AcquisitionStrategy : Type 0 where
  passive minimal active targeted : AcquisitionStrategy
